-- ===== src/Auth/Stores.antt =====
-- auth/stores.py: `InMemoryTokenStore` and its codec, without `put_client`. A method runs while it
-- holds the lock; `now` is what the clock says then, and a nonce is what the random source gives.
pub mod SingleUse
pub mod Lookups
pub mod Reached
pub mod Served
pub mod RoundTrip
mod Tests
use yandex_workspace_mcp.Prelude.{
  ℕ, Bool, true, false, not, ◌||◌, ◌&&◌, Text, text, List, [], ◌∷◌, ◌++◌, Option, none, some, leb,
  ◌==◌, if◌then◌else◌, text_eq, filter_by, map, any,
}
use yandex_workspace_mcp.Errors.{Error, Result, ok, err, configuration_error, token_store_miss}
use yandex_workspace_mcp.Auth.Records.{
  Kind, AuthRecord, kind_name, expiry, access_token, refresh_token, access_record, refresh_record,
  AccessTokenRecord, RefreshTokenRecord,
}

pub record EncryptedRecord : Type 0 where
  pub key_id : Text
  pub nonce : Text
  pub ciphertext : Text

-- What the store uses of hmac, hashlib, cryptography and pydantic. `lookup secret kind key` is the
-- HMAC of a lookup, `key_id` the identity of a secret, `encrypt` and `decrypt` are AES-GCM with the
-- additional data as arguments; `dump` and `validate` are the JSON of a record.
pub record Crypto : Type 0 where
  pub lookup : (secret kind key : Text) → Text
  pub key_id : (secret : Text) → Text
  pub encrypt : (secret nonce plaintext kind record_key : Text) → Text
  pub decrypt : (secret nonce ciphertext kind record_key : Text) → Option Text
  pub dump : AuthRecord → Text
  pub validate : Kind → Text → Option AuthRecord

-- _StoredRecord
pub record StoredRecord : Type 0 where
  pub kind : Text
  pub encrypted : EncryptedRecord
  pub expires_at : Option ℕ

pub record TokenStore : Type 0 where
  pub first_key : Text
  pub other_keys : List Text
  pub records : List (Text × StoredRecord)
  pub closed : Bool

abbrev pub keys : TokenStore → List Text
keys s = s.first_key ∷ s.other_keys

-- self._records.get(lookup) and self._records.pop(lookup, None)
unfoldable pub find_record : Text → List (Text × StoredRecord) → Option StoredRecord
find_record lookup [] = none
find_record lookup ((key, raw) ∷ records) =
    if text_eq key lookup then some raw else find_record lookup records

unfoldable pub pop_record : Text → List (Text × StoredRecord) → List (Text × StoredRecord)
pop_record lookup records = filter_by (λ entry. not (text_eq entry.0 lookup)) records

unfoldable pub pop_all : List Text → List (Text × StoredRecord) → List (Text × StoredRecord)
pop_all [] records = records
pop_all (lookup ∷ lookups) records = pop_all lookups (pop_record lookup records)

-- `raw.expires_at is not None and raw.expires_at <= now`
abbrev pub is_past : ℕ → Option ℕ → Bool
is_past now none = false
is_past now (some expires_at) = leb expires_at now

-- The condition of _validate_pair: whether two records stand for one sign-in and name each other.
unfoldable pub texts_eq : List Text → List Text → Bool
texts_eq [] [] = true
texts_eq [] (t ∷ b) = false
texts_eq (t ∷ a) [] = false
texts_eq (t ∷ a) (u ∷ b) = text_eq t u && texts_eq a b

abbrev pub is_some_text : Option Text → Text → Bool
is_some_text none t = false
is_some_text (some s) t = text_eq s t

unfoldable pub is_pair : Text → AccessTokenRecord → Text → RefreshTokenRecord → Bool
is_pair access new_access refresh new_refresh =
    is_some_text new_access.refresh_token refresh
    && (is_some_text new_refresh.access_token access
        && (text_eq new_access.client_id new_refresh.client_id
            && (text_eq new_access.subject new_refresh.subject
                && texts_eq new_access.scopes new_refresh.scopes)))

module _ (crypto : Crypto) where
  -- _lookup_candidates
  unfoldable pub lookup_candidates : List Text → Kind → Text → List Text
  lookup_candidates secrets kind key =
      map (λ secret. crypto.lookup secret (kind_name kind) key) secrets

  -- EncryptedRecordCodec.encrypt
  unfoldable pub seal : TokenStore → Text → Kind → Text → Text → EncryptedRecord
  seal s nonce kind record_key plaintext = record {
    key_id = crypto.key_id s.first_key;
    nonce = nonce;
    ciphertext = crypto.encrypt s.first_key nonce plaintext (kind_name kind) record_key;
  }

  -- EncryptedRecordCodec.decrypt: the first key with the identity of the record's.
  unfoldable pub unseal : List Text → Kind → Text → EncryptedRecord → Option Text
  unseal [] kind record_key sealed = none
  unseal (secret ∷ secrets) kind record_key sealed =
      if text_eq (crypto.key_id secret) sealed.key_id
      then crypto.decrypt secret sealed.nonce sealed.ciphertext (kind_name kind) record_key
      else unseal secrets kind record_key sealed

  -- _put_locked
  unfoldable pub put : Text → Kind → Text → AuthRecord → TokenStore → Result (Unit {0}) × TokenStore
  put nonce kind key auth_record s = if s.closed then (err token_store_miss, s) else (
    ok tt,
    record s {
      records =
          pop_all (lookup_candidates (keys s) kind key) s.records
          ++ (
            crypto.lookup s.first_key (kind_name kind) key,
            record {
              kind = kind_name kind;
              encrypted = seal s nonce kind key (crypto.dump auth_record);
              expires_at = expiry auth_record;
            },
          )
            ∷ [];
    },
  )

  -- What _get_locked returns for a record that it has found.
  unfoldable pub read_record : TokenStore → Kind → Text → StoredRecord → Result AuthRecord
  read_record s kind key raw = elim (unseal (keys s) kind key raw.encrypted) [
    | none ↦ err token_store_miss
    | some payload ↦ elim (crypto.validate kind payload) [
      | none ↦ err token_store_miss
      | some auth_record ↦ ok auth_record
    ]
  ]

  -- The loop of _get_locked.
  unfoldable pub search_lookups :
      ℕ → Kind → Text → List Text → TokenStore → Result (Text × AuthRecord) × TokenStore
  search_lookups now kind key [] s = (err token_store_miss, s)
  search_lookups now kind key (lookup ∷ lookups) s = elim (find_record lookup s.records) [
    | none ↦ search_lookups now kind key lookups s
    | some raw ↦ elim (text_eq raw.kind (kind_name kind)) [
      | false ↦ search_lookups now kind key lookups s
      | true ↦ elim (is_past now raw.expires_at) [
        | true ↦ (err token_store_miss, record s { records = pop_record lookup s.records })
        | false ↦ elim (read_record s kind key raw) [
          | ok auth_record ↦ (ok (lookup, auth_record), s)
          | err e ↦ (err e, s)
        ]
      ]
    ]
  ]

  unfoldable pub get_locked : ℕ → Kind → Text → TokenStore → Result (Text × AuthRecord) × TokenStore
  get_locked now kind key s =
      if s.closed
      then (err token_store_miss, s)
      else search_lookups now kind key (lookup_candidates (keys s) kind key) s

  -- _get and _consume
  unfoldable pub get : ℕ → Kind → Text → TokenStore → Result AuthRecord × TokenStore
  get now kind key s =
      let (found, s') = get_locked now kind key s in
      elim found [ ok answer ↦ (ok answer.1, s') | err e ↦ (err e, s') ]

  unfoldable pub consume : ℕ → Kind → Text → TokenStore → Result AuthRecord × TokenStore
  consume now kind key s =
      let (found, s') = get_locked now kind key s in
      elim found [
        | ok answer ↦ (ok answer.1, record s' { records = pop_record answer.0 s'.records })
        | err e ↦ (err e, s')
      ]

  -- revoke_token_pair and delete_downstream, for one of their tokens.
  unfoldable pub revoke : Kind → Text → TokenStore → TokenStore
  revoke kind key s = record s { records = pop_all (lookup_candidates (keys s) kind key) s.records }

  unfoldable pub close : TokenStore → TokenStore
  close s = if s.closed then s else record s { closed = true; records = [] }

  -- put_token_pair
  unfoldable pub put_pair :
      (access_nonce refresh_nonce access refresh : Text)
      → AccessTokenRecord
      → RefreshTokenRecord
      → TokenStore
      → Result (Unit {0}) × TokenStore
  put_pair access_nonce refresh_nonce access refresh new_access new_refresh s =
      let (first, s') = put access_nonce access_token access (access_record new_access) s in
      if not (is_pair access new_access refresh new_refresh)
      then (err configuration_error, s)
      else (elim first [
        | ok _ ↦ put refresh_nonce refresh_token refresh (refresh_record new_refresh) s'
        | err e ↦ (err e, s')
      ])

  -- The access token that goes with a refresh token, if there is one.
  abbrev pub linked : AuthRecord → Option Text
  linked (refresh_record r) = r.access_token
  linked _ = none

  -- `if old_record.access_token: ...`
  unfoldable pub pop_linked : Option Text → TokenStore → TokenStore
  pop_linked none s = s
  pop_linked (some access) s = if text_eq access [] then s else revoke access_token access s

  -- What rotate_token_pair does once the old refresh token was looked up and popped.
  unfoldable pub replace_pair :
      (refresh_nonce access_nonce new_refresh_token : Text)
      → RefreshTokenRecord
      → (new_access_token : Text) → AccessTokenRecord
      → Result AuthRecord × TokenStore
      → Result AuthRecord × TokenStore
  replace_pair refresh_nonce access_nonce new_refresh_token new_refresh_record new_access_token
        new_access_record (err e, s) =
      (err e, s)
  replace_pair refresh_nonce access_nonce new_refresh_token new_refresh_record new_access_token
        new_access_record (ok old_record, s) =
      let refreshed =
        put refresh_nonce refresh_token new_refresh_token (refresh_record new_refresh_record)
          (pop_linked (linked old_record) s) in
      let replaced =
        put access_nonce access_token new_access_token (access_record new_access_record)
          refreshed.1 in
      elim refreshed.0 [
        | err e ↦ (err e, refreshed.1)
        | ok _ ↦ elim replaced.0 [
          | err e ↦ (err e, replaced.1)
          | ok _ ↦ (ok old_record, replaced.1)
        ]
      ]

  -- rotate_token_pair
  unfoldable pub rotate :
      (now : ℕ) (refresh_nonce access_nonce old_refresh_token new_refresh_token : Text)
      → RefreshTokenRecord
      → (new_access_token : Text) → AccessTokenRecord
      → TokenStore
      → Result AuthRecord × TokenStore
  rotate now refresh_nonce access_nonce old_refresh_token new_refresh_token new_refresh_record
        new_access_token new_access_record s =
      if not (is_pair new_access_token new_access_record new_refresh_token new_refresh_record)
      then (err configuration_error, s)
      else replace_pair refresh_nonce access_nonce new_refresh_token new_refresh_record
          new_access_token new_access_record (consume now refresh_token old_refresh_token s)
