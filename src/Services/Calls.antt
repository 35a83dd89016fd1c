-- ===== src/Services/Calls.antt =====
-- How a service method runs: it computes, raises, and sends requests to the upstream API. What the
-- API answers may depend on all that was sent before. `Request` is the type of what is sent.
use yandex_workspace_mcp.Prelude.{◌≡◌, Bool, true, false, refl, List, ◌∷◌, All, arith}
use yandex_workspace_mcp.Errors.{Error, Result, ok, err}

-- The requests sent so far, the last one first.
abbrev pub Call {ℓ} : Type 0 → Type ℓ → Type ℓ
Call Request A = List Request → Result A × List Request

module _ {Request : Type 0} {A : Type 0} where
  abbrev pub returned : A → Call Request A
  returned a sent = (ok a, sent)

  abbrev pub raised : Error → Call Request A
  raised e sent = (err e, sent)

  -- A computation that sends nothing.
  abbrev pub of_result : Result A → Call Request A
  of_result r sent = (r, sent)

  -- One request, with what the API answers after the requests sent before.
  abbrev pub ask : (List Request → Request → Result A) → Request → Call Request A
  ask answer request sent = (answer sent request, request ∷ sent)

module _ {Request : Type 0} {A B : Type 0} where
  -- What follows a result; an error ends the method.
  abbrev pub and_then : Result A → (A → Call Request B) → Call Request B
  and_then (ok a) f sent = f a sent
  and_then (err e) f sent = (err e, sent)

  infixl 5 ◌>>=◌
  abbrev pub ◌>>=◌ : Call Request A → (A → Call Request B) → Call Request B
  ◌>>=◌ m f sent = and_then (m sent).0 f (m sent).1

module _ {Request : Type 0} {B : Type 0} where
  infixl 5 ◌>>◌
  abbrev pub ◌>>◌ : Call Request (Unit {0}) → Call Request B → Call Request B
  m >> k = m >>= λ _. k

-- `if bad: raise e`
abbrev pub guard : {Request : Type 0} → Bool → Error → Call Request (Unit {0})
guard true e sent = (err e, sent)
guard false e sent = (ok tt, sent)

-- All that a call sends has the property P.
module _ {Request : Type 0} (P : Request → Type 0) where
  abbrev pub Sends : {A : Type 0} → Call Request A → Type 0
  Sends m = (sent : List Request) → All P sent → All P (m sent).1

  pub ask-Sends :
      {A : Type 0} (answer : List Request → Request → Result A) (request : Request)
      → P request
      → Sends (ask answer request)
  ask-Sends answer request p sent h = (p, h)

  and_then-Sends :
      {A B : Type 0} (r : Result A) (f : A → Call Request B)
      → ((a : A) → r ≡ ok a → Sends (f a))
      → Sends (and_then r f)
  and_then-Sends (ok a) f hf = hf a refl
  and_then-Sends (err e) f hf = λ sent h. h

  pub >>=-Sends :
      {A B : Type 0} (m : Call Request A) (f : A → Call Request B)
      → Sends m
      → ((a : A) → Sends (f a))
      → Sends (m >>= f)
  >>=-Sends m f hm hf sent h = and_then-Sends (m sent).0 f (λ a _. hf a) (m sent).1 (hm sent h)

  pub of_result-Sends :
      {A B : Type 0} (r : Result A) (f : A → Call Request B)
      → ((a : A) → r ≡ ok a → Sends (f a))
      → Sends (of_result r >>= f)
  of_result-Sends r f hf = and_then-Sends r f hf

  pub guard-Sends :
      {B : Type 0} (bad : Bool) (e : Error) (k : Call Request B)
      → (bad ≡ false → Sends k)
      → Sends (guard bad e >> k)
  guard-Sends true e k hk = λ sent h. h
  guard-Sends false e k hk = hk refl

-- What a call that returns says of its parts.
module _ {Request : Type 0} {A B : Type 0} where
  and_then-ok :
      (r : Result A) (f : A → Call Request B) (sent : List Request) {b : B}
      → (and_then r f sent).0 ≡ ok b
      → (a : A) × (r ≡ ok a) × ((f a sent).0 ≡ ok b)
  and_then-ok (ok a) f sent h = (a, refl, h)
  and_then-ok (err e) f sent h = absurd (ground arith)

  pub >>=-ok :
      (m : Call Request A) (f : A → Call Request B) (sent : List Request) {b : B}
      → ((m >>= f) sent).0 ≡ ok b
      → (a : A) × ((m sent).0 ≡ ok a) × ((f a (m sent).1).0 ≡ ok b)
  >>=-ok m f sent h = and_then-ok (m sent).0 f (m sent).1 h

pub guard-ok :
    {Request B : Type 0} (bad : Bool) (e : Error) (k : Call Request B) (sent : List Request) {b : B}
    → ((guard bad e >> k) sent).0 ≡ ok b
    → (bad ≡ false) × ((k sent).0 ≡ ok b)
guard-ok true e k sent h = absurd (ground arith)
guard-ok false e k sent h = (refl, h)

-- Two calls that go on alike after one request.
module _ {Request : Type 0} {A B : Type 0} where
  and_then_cong :
      (r : Result A) (f g : A → Call Request B) (sent : List Request)
      → ((a : A) → f a sent ≡ g a sent)
      → and_then r f sent ≡ and_then r g sent
  and_then_cong (ok a) f g sent h = h a
  and_then_cong (err e) f g sent h = refl

  pub ask_cong :
      (answer : List Request → Request → Result A) (request : Request) (f g : A → Call Request B)
      (sent : List Request)
      → ((a : A) → f a (request ∷ sent) ≡ g a (request ∷ sent))
      → (ask answer request >>= f) sent ≡ (ask answer request >>= g) sent
  ask_cong answer request f g sent h = and_then_cong (answer sent request) f g (request ∷ sent) h
