-- ===== src/Clients/Base/Attempts.antt =====
-- How often, how late and with what result `_request` sends.
use yandex_workspace_mcp.Prelude.{
  ℕ, zero, suc, ◌+◌, ◌-◌, ◌≡◌, ◌≤◌, ◌<◌, inl, inr, Bool, true, false, ◌||◌, Text, List, [], ◌∷◌,
  Option, none, some, leb, ◌==◌, arith, Bool-cases, All, length, if◌then◌else◌,
}
use yandex_workspace_mcp.Errors.{
  Error, Result, ok, err, retryable, upstream_timeout, Result-cases, ok-injective,
}
use yandex_workspace_mcp.Clients.Base.{
  RequestSemantics, Response, Outcome, responds, transport_error, out_of_time, Network, selected,
  is_safe, max_attempts, raise_for_status, settled, tries_again, waits_by, last_error, retry_delay,
  loop, request,
}

-- Errors of HTTP are errors here, and the ones marked retryable are 429 and the errors of the server.
pub raise_for_status_lem :
    (status : ℕ)
    → (raise_for_status status ≡ ok tt → status < 400)
      × ((e : Error)
          → raise_for_status status ≡ err e
          → (400 ≤ status) × (retryable e ≡ (status == 429 || leb 500 status)))
unfolding raise_for_status retryable
raise_for_status_lem status = ground arith

module _ (net : Network) (safe translate_errors : Bool)
    (attempts started operation_timeout : ℕ) where
  -- Sent before the deadline.
  abbrev pub InTime : ℕ → Type 0
  InTime now = now - started < operation_timeout

  loop_lem :
      (rounds attempt : ℕ) (last : Option Bool) (now : ℕ) (sent : List ℕ)
      → All InTime sent
      → All InTime
          (loop net safe translate_errors attempts started operation_timeout rounds attempt last now
            sent).1
        × (length
              (loop net safe translate_errors attempts started operation_timeout rounds attempt last
                now sent).1
            ≤ rounds + length sent)
  unfolding loop
  loop_lem zero attempt last now sent h = (h, omega arith)
  loop_lem (suc rounds) attempt last now sent h =
      elim (Bool-cases (leb operation_timeout (now - started))) [
        | inl late ↦ rw (late, loop) (h, omega arith)
        | inr early ↦
            let timely : InTime now = ground arith in
            elim (Bool-cases (tries_again safe attempts attempt (net.send attempt now).0)) [
              | inr settles ↦ rw (early, settles, loop) ((timely, h), omega arith)
              | inl again ↦
                  elim (Bool-cases (
                    leb operation_timeout (
                      ((net.send attempt now).1 - started)
                      + retry_delay net attempt (waits_by (net.send attempt now).0)))) [
                        | inl late ↦ rw (early, again, late, loop) ((timely, h), omega arith)
                        | inr waits ↦
                            let (timely', few) =
                              loop_lem rounds (attempt + 1)
                                (last_error last (net.send attempt now).0) _ (now ∷ sent)
                                (timely, h) in
                            rw (early, again, waits, loop) (timely', omega (arith, few))
                      ]
            ]
      ]

  settled-ok :
      (outcome : Outcome) {response : Response}
      → settled true outcome ≡ ok response
      → response.status_code < 400
  unfolding settled
  settled-ok (responds r) {response} h = elim (Result-cases (raise_for_status r.status_code)) [
    | inl (done, e) ↦
        let same : r ≡ response = ok-injective (rw e at h) in
        rw (← same) ((raise_for_status_lem r.status_code).0 e)
    | inr (x, e) ↦ absurd (ground (arith, e, h))
  ]
  settled-ok (transport_error is_timeout) h = absurd (ground arith)
  settled-ok out_of_time h = absurd (ground arith)

  loop-ok :
      (rounds attempt : ℕ) (last : Option Bool) (now : ℕ) (sent : List ℕ) {response : Response}
      → (loop net safe true attempts started operation_timeout rounds attempt last now sent).0
        ≡ ok response
      → response.status_code < 400
  unfolding loop
  loop-ok zero attempt last now sent h = absurd (ground arith)
  loop-ok (suc rounds) attempt last now sent h =
      elim (Bool-cases (leb operation_timeout (now - started))) [
        | inl late ↦ absurd (ground (arith, rw (late, loop) at h))
        | inr early ↦
            elim (Bool-cases (tries_again safe attempts attempt (net.send attempt now).0)) [
              | inr settles ↦ settled-ok (net.send attempt now).0 (rw (early, settles, loop) at h)
              | inl again ↦
                  let delay = retry_delay net attempt (waits_by (net.send attempt now).0) in
                  elim (Bool-cases
                    (leb operation_timeout (((net.send attempt now).1 - started) + delay))) [
                      | inl late ↦ absurd (ground (arith, rw (early, again, late, loop) at h))
                      | inr waits ↦
                          loop-ok rounds (attempt + 1) (last_error last (net.send attempt now).0) _
                            (now ∷ sent) (rw (early, again, waits, loop) at h)
                    ]
            ]
      ]

max_attempts-le :
    (safe : Bool) (retries : Option ℕ) → max_attempts safe retries ≤ (if safe then 3 else 1)
unfolding max_attempts
max_attempts-le safe none = ground arith
max_attempts-le safe (some retries) = ground arith

-- With errors translated, a response that is returned is a success.
abbrev pub Translated : Bool → Result Response → Type 0
Translated false result = Unit {0}
Translated true (ok response) = response.status_code < 400
Translated true (err e) = Unit {0}

-- What holds of the sends and the result of a read or of another request.
abbrev Holds :
    (safe translate_errors : Bool) (started operation_timeout : ℕ)
    → Result Response × List ℕ
    → Type 0
Holds safe translate_errors started operation_timeout run =
    All (λ now. now - started < operation_timeout) run.1
    × (length run.1 ≤ (if safe then 3 else 1))
    × Translated translate_errors run.0

-- Both branches of a test.
in_either :
    {A : Type 0} (P : A → Type 0) (b : Bool) (x y : A)
    → P x
    → P y
    → P (elim b [ true ↦ x | false ↦ y ])
in_either P true x y hx hy = hx
in_either P false x y hx hy = hy

in_answer :
    {A B : Type 0} (P : A → Type 0) (o : Option B) (x : A) (f : B → A)
    → P x
    → ((b : B) → P (f b))
    → P (elim o [ none ↦ x | some b ↦ f b ])
in_answer P none x f hx hf = hx
in_answer P (some b) x f hx hf = hf b

three_or_one : (safe : Bool) → 0 ≤ (if safe then 3 else 1)
three_or_one safe = ground arith

Translated-err : (translate_errors : Bool) (e : Error) → Translated translate_errors (err e)
Translated-err true e = tt
Translated-err false e = tt

module _ (net : Network) where
  loop-Translated :
      (safe translate_errors : Bool) (attempts started operation_timeout rounds attempt : ℕ)
      (last : Option Bool) (now : ℕ) (sent : List ℕ)
      → Translated translate_errors
          (loop net safe translate_errors attempts started operation_timeout rounds attempt last now
            sent).0
  loop-Translated safe false attempts started operation_timeout rounds attempt last now sent = tt
  loop-Translated safe true attempts started operation_timeout rounds attempt last now sent =
      let result =
        (loop net safe true attempts started operation_timeout rounds attempt last now sent).0 in
      elim (Result-cases result) [
        | inl (response, e) ↦ rw e (
            loop-ok net safe true attempts started operation_timeout rounds attempt last now sent e)
        | inr (x, e) ↦ rw e tt
      ]

  loop-Holds :
      (safe translate_errors : Bool) (retries : Option ℕ) (started operation_timeout now : ℕ)
      → Holds safe translate_errors started operation_timeout (
          loop net safe translate_errors
            (max_attempts safe retries)
            started
            operation_timeout
            (max_attempts safe retries)
            0
            none
            now
            [])
  loop-Holds safe translate_errors retries started operation_timeout now =
      let attempts = max_attempts safe retries in
      let (timely, few) =
        loop_lem net safe translate_errors attempts started operation_timeout attempts 0 none now []
          tt in
      (
        timely,
        omega (arith, few, max_attempts-le safe retries),
        loop-Translated safe translate_errors attempts started operation_timeout attempts 0 none now
            [],
      )

  -- Whatever the network does, `_request` sends a read at most three times and anything else at most
  -- once, sends nothing at or after the deadline, and a response that it returns with errors
  -- translated has a status below 400.
  pub request_lem :
      (method : Text) (retries : Option ℕ) (semantics : Option RequestSemantics)
      (operation_timeout : ℕ) (translate_errors : Bool) (provider : Option (ℕ → Option ℕ))
      (started : ℕ)
      → Holds
          (is_safe (selected method semantics))
          translate_errors
          started
          operation_timeout
          (request net method retries semantics operation_timeout translate_errors provider started)
  unfolding request
  request_lem method retries semantics operation_timeout translate_errors none started =
      loop-Holds (is_safe (selected method semantics)) translate_errors retries started
        operation_timeout started
  request_lem method retries semantics operation_timeout translate_errors (some provide) started =
      let safe = is_safe (selected method semantics) in
      let nothing_sent : Holds safe translate_errors started operation_timeout
          (err upstream_timeout, []) =
        (tt, three_or_one safe, Translated-err translate_errors upstream_timeout) in
      in_either (Holds safe translate_errors started operation_timeout) (leb operation_timeout 0) _
        _ nothing_sent
        (in_answer (Holds safe translate_errors started operation_timeout) (provide started) _ _
          nothing_sent
          (λ now. loop-Holds safe translate_errors retries started operation_timeout now))
