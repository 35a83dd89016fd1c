-- ===== src/Clients/Base.antt =====
-- clients/base.py: `_request` and what it calls. Times are numbers of one unit, `half_second` of them
-- to half a second. The headers of a request are left out. The network, the clock and
-- the random jitter are the parameters of a `Network`.
pub mod Attempts
mod Tests
use yandex_workspace_mcp.Prelude.{
  ℕ, zero, suc, ◌+◌, ◌-◌, ◌*◌, ◌^◌, Bool, true, false, not, ◌&&◌, ◌||◌, Text, text, List, [], ◌∷◌,
  ◌++◌, Option, none, some, ltb, leb, ◌==◌, if◌then◌else◌, text_eq,
}
use yandex_workspace_mcp.Errors.{
  Error, Result, ok, err, invalid_input, authentication_error, permission_denied,
  resource_not_found, revision_conflict, rate_limit_exceeded, upstream_unavailable,
  upstream_timeout,
}

pub data RequestSemantics : Type 0 where
  safe_read logical_read mutation signed_upload : RequestSemantics

-- httpx.Response, as far as `_request` reads it.
pub record Response : Type 0 where
  pub status_code : ℕ
  pub retry_after : Option Text

-- What `client.request` does before its deadline: it returns, raises a TransportError (which may be a
-- TimeoutException), or `fail_after` ends it.
pub data Outcome : Type 0 where
  responds : Response → Outcome
  transport_error : (is_timeout : Bool) → Outcome
  out_of_time : Outcome

-- The outcome of an attempt that starts at a time, and the time at which it is over; the seconds that
-- `float` reads in a header, in units and from 0 up; `jitter(0, bound)`; and when a sleep ends.
pub record Network : Type 0 where
  pub send : (attempt now : ℕ) → Outcome × ℕ
  pub parse_seconds : Text → Option ℕ
  pub jitter : (attempt bound : ℕ) → ℕ
  pub wake : (now delay : ℕ) → ℕ
  pub half_second : ℕ

-- `method.upper()` on the letters a to z. No other text has `GET` or `HEAD` as its upper case.
unfoldable pub upper : Text → Text
upper [] = []
upper (c ∷ method) = (if leb b'a' c && leb c b'z' then c - 32 else c) ∷ upper method

-- _default_semantics
unfoldable pub default_semantics : Text → RequestSemantics
unfolding upper
default_semantics method =
    if text_eq (upper method) (text "GET") || text_eq (upper method) (text "HEAD")
    then safe_read
    else mutation

abbrev pub is_safe : RequestSemantics → Bool
is_safe safe_read = true
is_safe logical_read = true
is_safe mutation = false
is_safe signed_upload = false

-- The semantics that `_request` goes by.
abbrev pub selected : Text → Option RequestSemantics → RequestSemantics
selected method none = default_semantics method
selected method (some semantics) = semantics

-- `min(3, retries or 3) if safe else 1`
unfoldable pub max_attempts : Bool → Option ℕ → ℕ
max_attempts safe none = if safe then 3 else 1
max_attempts safe (some retries) =
    if safe then if retries == 0 then 3 else if ltb retries 3 then retries else 3 else 1

-- _transport_error
abbrev pub transport_failure : Bool → Error
transport_failure is_timeout = if is_timeout then upstream_timeout else upstream_unavailable

unfoldable pub raise_for_status : ℕ → Result (Unit {0})
raise_for_status status =
    if ltb status 400
    then ok tt
    else if status == 400
    then err invalid_input
    else if status == 401
    then err authentication_error
    else if status == 403
    then err permission_denied
    else if status == 404
    then err resource_not_found
    else if status == 409
    then err revision_conflict
    else if status == 408
    then err upstream_timeout
    else if status == 429
    then err rate_limit_exceeded
    else if leb 500 status
    then err upstream_unavailable
    else err invalid_input

-- `response.status_code in {429, 502, 503, 504}`
unfoldable pub is_retried : ℕ → Bool
is_retried status = status == 429 || (status == 502 || (status == 503 || status == 504))

abbrev lesser : ℕ → ℕ → ℕ
lesser a b = if ltb a b then a else b

-- The end of the function, after a loop without a return.
abbrev pub exhausted : Option Bool → Error
exhausted none = upstream_unavailable
exhausted (some is_timeout) = transport_failure is_timeout

-- The outcome of an attempt that is not tried again.
unfoldable pub settled : (translate_errors : Bool) → Outcome → Result Response
settled translate_errors (responds response) =
    if translate_errors
    then elim (raise_for_status response.status_code) [ ok _ ↦ ok response | err e ↦ err e ]
    else ok response
settled translate_errors (transport_error is_timeout) = err (transport_failure is_timeout)
settled translate_errors out_of_time = err upstream_timeout

-- Whether the loop goes on after an outcome, and the header that it waits by.
unfoldable pub tries_again : (safe : Bool) (attempts attempt : ℕ) → Outcome → Bool
tries_again safe attempts attempt (responds response) =
    is_retried response.status_code && (safe && ltb (attempt + 1) attempts)
tries_again safe attempts attempt (transport_error is_timeout) = safe && ltb (attempt + 1) attempts
tries_again safe attempts attempt out_of_time = false

abbrev pub waits_by : Outcome → Option Text
waits_by (responds response) = response.retry_after
waits_by (transport_error is_timeout) = none
waits_by out_of_time = none

abbrev pub last_error : Option Bool → Outcome → Option Bool
last_error last (responds response) = last
last_error last (transport_error is_timeout) = some is_timeout
last_error last out_of_time = last

module _ (net : Network) where
  -- jitter(0.0, min(3.0, 0.5 * (2**attempt)))
  unfoldable pub backoff : ℕ → ℕ
  backoff attempt =
      net.jitter attempt (lesser (6 * net.half_second) (net.half_second * 2 ^ attempt))

  unfoldable pub retry_delay : ℕ → Option Text → ℕ
  retry_delay attempt none = backoff attempt
  retry_delay attempt (some retry_after) = elim (net.parse_seconds retry_after) [
    | none ↦ backoff attempt
    | some seconds ↦ lesser (6 * net.half_second) seconds
  ]

  module _ (safe translate_errors : Bool) (attempts started operation_timeout : ℕ) where
    -- The rounds of the loop that are left, the number of this one, the last transport error, the time
    -- and the times at which requests were sent, the last one first.
    unfoldable pub loop : ℕ → ℕ → Option Bool → ℕ → List ℕ → Result Response × List ℕ
    loop zero attempt last now sent = (err (exhausted last), sent)
    loop (suc rounds) attempt last now sent = elim (leb operation_timeout (now - started)) [
      | true ↦ (err upstream_timeout, sent)
      | false ↦
          let (outcome, over) = net.send attempt now in
          elim (tries_again safe attempts attempt outcome) [
            | false ↦ (settled translate_errors outcome, now ∷ sent)
            | true ↦
                let delay = retry_delay attempt (waits_by outcome) in
                elim (leb operation_timeout ((over - started) + delay)) [
                  | true ↦ (err upstream_timeout, now ∷ sent)
                  | false ↦
                      loop rounds (attempt + 1) (last_error last outcome) (net.wake over delay)
                        (now ∷ sent)
                ]
          ]
    ]

  -- _request. `provider` is none if the credentials are at hand or there are none to ask for;
  -- otherwise it says when the provider has answered, or nothing where `fail_after` ends it.
  unfoldable pub request :
      Text
      → Option ℕ
      → Option RequestSemantics
      → ℕ
      → Bool
      → Option (ℕ → Option ℕ)
      → ℕ
      → Result Response × List ℕ
  request method retries semantics operation_timeout translate_errors provider started =
      let safe : Bool = is_safe (selected method semantics) in
      let attempts = max_attempts safe retries in
      elim provider [
        | none ↦
            loop safe translate_errors attempts started operation_timeout attempts 0 none started []
        | some provide ↦ elim (leb operation_timeout 0) [
          | true ↦ (err upstream_timeout, [])
          | false ↦ elim (provide started) [
            | none ↦ (err upstream_timeout, [])
            | some now ↦
                loop safe translate_errors attempts started operation_timeout attempts 0 none now []
          ]
        ]
      ]
