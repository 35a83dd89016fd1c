-- ===== src/Services/Wiki/Traces.antt =====
-- How the trace of requests grows as a method of `WikiService` runs: each request is allowed after
-- those before it, and the locks that are held in the end are those that were held before.
use yandex_workspace_mcp.Prelude.{
  ◌≡◌, refl, sym, ◌∙◌, ◌⊎◌, Bool, true, false, Text, List, [], ◌∷◌, text_eq, text_eq_iff,
  text_eq_refl, if◌then◌else◌, Bool-cases, inl, inr, arith,
}
use yandex_workspace_mcp.Errors.{Error, Result, ok, err}
use yandex_workspace_mcp.Services.Calls.{Call, of_result, ask, guard, and_then, ◌>>=◌, ◌>>◌}
use yandex_workspace_mcp.Services.Wiki.{Request, acquire_lock, release_lock}
use yandex_workspace_mcp.Services.Wiki.Resolve.{with_lock}

-- What the request does to the lock of a grid, if anything.
unfoldable pub holds_lock : Text → List Request → Bool
holds_lock grid_id [] = false
holds_lock grid_id (acquire_lock held ∷ sent) =
    if text_eq held grid_id then true else holds_lock grid_id sent
holds_lock grid_id (release_lock held ∷ sent) =
    if text_eq held grid_id then false else holds_lock grid_id sent
holds_lock grid_id (request ∷ sent) = holds_lock grid_id sent

abbrev pub SameLocks : List Request → List Request → Type 0
SameLocks sent later = (grid_id : Text) → holds_lock grid_id later ≡ holds_lock grid_id sent

-- Whether a request is about a lock.
abbrev pub is_lock : Request → Bool
is_lock (acquire_lock grid_id) = true
is_lock (release_lock grid_id) = true
is_lock _ = false

pub lock_kept :
    (request : Request) (sent : List Request)
    → is_lock request ≡ false
    → SameLocks sent (request ∷ sent)
unfolding holds_lock
lock_kept (acquire_lock grid_id) sent free other = absurd (ground arith)
lock_kept (release_lock grid_id) sent free other = absurd (ground arith)
lock_kept _ sent free other = refl

-- A request was sent of which Q holds, after those before it.
abbrev pub Before : (List Request → Request → Type 0) → List Request → Type 0
Before Q [] = ⊥
Before Q (request ∷ sent) = Q sent request ⊎ Before Q sent

module _ (P : List Request → Request → Type 0) where
  abbrev pub Trace : List Request → Type 0
  Trace [] = Unit {0}
  Trace (request ∷ sent) = P sent request × Trace sent

  -- From `sent` on, the call keeps the trace and the locks, and its result has the property Q.
  abbrev pub Keeps :
      {A : Type 0} → Call Request A → (A → List Request → Type 0) → List Request → Type 0
  Keeps {A} m Q sent =
      Trace sent
      → Trace (m sent).1
        × SameLocks sent (m sent).1
        × ((a : A) → (m sent).0 ≡ ok a → Q a (m sent).1)

  pub ask-Keeps :
      {A : Type 0} (answer : List Request → Request → Result A) (request : Request)
      (Q : A → List Request → Type 0) (sent : List Request)
      → P sent request
      → is_lock request ≡ false
      → ((a : A) → answer sent request ≡ ok a → Q a (request ∷ sent))
      → Keeps (ask answer request) Q sent
  ask-Keeps answer request Q sent p free q trace = ((p, trace), lock_kept request sent free, q)

  pub of_result-Keeps :
      {A : Type 0} (r : Result A) (Q : A → List Request → Type 0) (sent : List Request)
      → ((a : A) → r ≡ ok a → Q a sent)
      → Keeps (of_result r) Q sent
  of_result-Keeps r Q sent q trace = (trace, (λ grid_id. refl), q)

  and_then-Keeps :
      {A B : Type 0} (r : Result A) (f : A → Call Request B) (R : B → List Request → Type 0)
      (sent : List Request)
      → ((a : A) → r ≡ ok a → Keeps (f a) R sent)
      → Keeps (and_then r f) R sent
  and_then-Keeps (ok a) f R sent h trace = h a refl trace
  and_then-Keeps (err e) f R sent h trace =
      (trace, (λ grid_id. refl), λ b impossible. absurd (ground arith))

  pub >>=-Keeps :
      {A B : Type 0} (m : Call Request A) (f : A → Call Request B) (Q : A → List Request → Type 0)
      (R : B → List Request → Type 0) (sent : List Request)
      → Keeps m Q sent
      → ((a : A) (later : List Request) → SameLocks sent later → Q a later → Keeps (f a) R later)
      → Keeps (m >>= f) R sent
  >>=-Keeps m f Q R sent hm hf trace =
      let (trace1, same1, q) = hm trace in
      let (trace2, same2, r) =
        and_then-Keeps (m sent).0 f R (m sent).1 (λ a e. hf a (m sent).1 same1 (q a e)) trace1 in
      (trace2, (λ grid_id. same2 grid_id ∙ same1 grid_id), r)

  -- A request, and what is done with its answer.
  pub ask-then-Keeps :
      {A B : Type 0} (answer : List Request → Request → Result A) (request : Request)
      (f : A → Call Request B) (R : B → List Request → Type 0) (sent : List Request)
      → P sent request
      → is_lock request ≡ false
      → ((a : A)
          → answer sent request ≡ ok a
          → SameLocks sent (request ∷ sent)
          → Keeps (f a) R (request ∷ sent))
      → Keeps (ask answer request >>= f) R sent
  ask-then-Keeps answer request f R sent p free h trace =
      let same1 = lock_kept request sent free in
      let (trace2, same2, r) =
        and_then-Keeps (answer sent request) f R (request ∷ sent) (λ a e. h a e same1) (p, trace) in
      (trace2, (λ grid_id. same2 grid_id ∙ same1 grid_id), r)

  pub guard-Keeps :
      {B : Type 0} (bad : Bool) (e : Error) (k : Call Request B) (R : B → List Request → Type 0)
      (sent : List Request)
      → (bad ≡ false → Keeps k R sent)
      → Keeps (guard bad e >> k) R sent
  guard-Keeps true e k R sent h trace =
      (trace, (λ grid_id. refl), λ b impossible. absurd (ground arith))
  guard-Keeps false e k R sent h trace = h refl trace

  pub check-Keeps :
      {A B : Type 0} (r : Result A) (f : A → Call Request B) (R : B → List Request → Type 0)
      (sent : List Request)
      → ((a : A) → r ≡ ok a → Keeps (f a) R sent)
      → Keeps (of_result r >>= f) R sent
  check-Keeps r f R sent h = and_then-Keeps r f R sent h

-- The lock that a task takes and gives back.
acquired :
    (grid_id : Text) (sent : List Request) → holds_lock grid_id (acquire_lock grid_id ∷ sent) ≡ true
unfolding holds_lock
acquired grid_id sent = rw (text_eq_refl grid_id) refl

bracket-SameLocks :
    (grid_id : Text) (sent later : List Request)
    → holds_lock grid_id sent ≡ false
    → SameLocks (acquire_lock grid_id ∷ sent) later
    → SameLocks sent (release_lock grid_id ∷ later)
unfolding holds_lock
bracket-SameLocks grid_id sent later free same other = elim (Bool-cases (text_eq grid_id other)) [
  | inl hit ↦ rw hit (sym free ∙ ap_holds ((text_eq_iff grid_id other).0 hit))
  | inr miss ↦ rw miss (same other ∙ rw miss refl)
]
  where
    ap_holds : grid_id ≡ other → holds_lock grid_id sent ≡ holds_lock other sent
    ap_holds e = rw e refl

module _ (P : List Request → Request → Type 0) where
  pub with_lock-Keeps :
      {A : Type 0} (grid_id : Text) (m : Call Request A) (Q : A → List Request → Type 0)
      (sent : List Request)
      → holds_lock grid_id sent ≡ false
      → P sent (acquire_lock grid_id)
      → ((later : List Request) → holds_lock grid_id later ≡ true → P later (release_lock grid_id))
      → ((later : List Request) (a : A) → Q a later → Q a (release_lock grid_id ∷ later))
      → (holds_lock grid_id (acquire_lock grid_id ∷ sent) ≡ true
          → Keeps P m Q (acquire_lock grid_id ∷ sent))
      → Keeps P (with_lock grid_id m) Q sent
  unfolding with_lock
  with_lock-Keeps grid_id m Q sent free takes gives weaken body trace =
      let held = acquired grid_id sent in
      let (trace1, same, q) = body held (takes, trace) in
      (
        (gives _ (same grid_id ∙ held), trace1),
        bracket-SameLocks grid_id sent _ free same,
        λ a e. weaken _ a (q a e),
      )
