-- ===== src/Errors.antt =====
-- The exceptions of src/yandex_workspace_mcp/models/errors.py that the program raises, with the two
-- subclasses of clients/wiki.py, the TokenStoreMiss of auth/stores.py and Python's own `ValueError`
-- and `TypeError`, and results that may carry one.
use yandex_workspace_mcp.Prelude.{◌≡◌, refl, ◌⊎◌, inl, inr, Bool, true, false, Text, text}

pub data Error : Type 0 where
  configuration_error invalid_input authentication_error permission_denied invalid_path : Error
  resource_not_found revision_conflict rate_limit_exceeded upstream_unavailable : Error
  upstream_timeout contract_mismatch api_error : Error
  search_filter_unsupported search_unavailable : Error
  value_error type_error token_store_miss : Error

-- The attribute `retryable` of a `YandexWorkspaceError`.
unfoldable pub retryable : Error → Bool
retryable rate_limit_exceeded = true
retryable upstream_unavailable = true
retryable _ = false

-- The attribute `category`; an exception of another class is reported as `upstream_error`.
unfoldable pub category : Error → Text
category configuration_error = text "configuration_error"
category invalid_input = text "invalid_input"
category authentication_error = text "authentication_error"
category permission_denied = text "permission_denied"
category invalid_path = text "invalid_path"
category resource_not_found = text "resource_not_found"
category revision_conflict = text "conflict"
category rate_limit_exceeded = text "rate_limited"
category upstream_unavailable = text "upstream_unavailable"
category upstream_timeout = text "upstream_timeout"
category contract_mismatch = text "contract_mismatch"
category search_filter_unsupported = text "contract_mismatch"
category search_unavailable = text "resource_not_found"
category api_error = text "upstream_error"
category value_error = text "upstream_error"
category type_error = text "upstream_error"
category token_store_miss = text "upstream_error"

-- A pure function that may raise.
pub data Result {ℓ} (A : Type ℓ) : Type ℓ where
  ok : A → Result A
  err : Error → Result A

-- What comes after a result: an exception ends the function, a value goes on.
abbrev pub goes_on {ℓ κ} : {A : Type ℓ} {B : Type κ} → (A → Result B) → Result A → Result B
goes_on next (err e) = err e
goes_on next (ok a) = next a

infixl 5 ◌>>=◌ ◌>>◌
abbrev pub ◌>>=◌ {ℓ κ} : {A : Type ℓ} {B : Type κ} → Result A → (A → Result B) → Result B
m >>= next = goes_on next m

abbrev pub ◌>>◌ {ℓ} : {B : Type ℓ} → Result (Unit {0}) → Result B → Result B
check >> rest = goes_on (λ _. rest) check

-- `if bad: raise e`
abbrev pub raise_if : Bool → Error → Result (Unit {0})
raise_if true e = err e
raise_if false e = ok tt

pub Result-cases {ℓ} :
    {A : Type ℓ} (r : Result A) → ((a : A) × (r ≡ ok a)) ⊎ ((e : Error) × (r ≡ err e))
Result-cases (ok a) = inl (a, refl)
Result-cases (err e) = inr (e, refl)

-- What a successful chain says of its parts.
pub >>=-ok {ℓ κ} :
    {A : Type ℓ} {B : Type κ} (m : Result A) (next : A → Result B) {b : B}
    → (m >>= next) ≡ ok b
    → (a : A) × (m ≡ ok a) × (next a ≡ ok b)
>>=-ok (err e) next h = cc
>>=-ok (ok a) next h = (a, refl, h)

pub raise_if-ok {ℓ} :
    {B : Type ℓ} (b : Bool) (e : Error) (k : Result B) {r : B}
    → (raise_if b e >> k) ≡ ok r
    → (b ≡ false) × (k ≡ ok r)
raise_if-ok true e k h = cc
raise_if-ok false e k h = (refl, h)

pub ok-injective {ℓ} : {A : Type ℓ} {a b : A} → ok a ≡ ok b → a ≡ b
ok-injective h = cc

pub err-injective {ℓ} : {A : Type ℓ} {e f : Error} → ◌≡◌ {A = Result A} (err e) (err f) → e ≡ f
err-injective h = cc
