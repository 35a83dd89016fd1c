-- ===== src/Auth/Stores/RoundTrip.antt =====
-- What was put can be had.
use yandex_workspace_mcp.Prelude.{
  ℕ, ◌≡◌, refl, false, Text, [], ◌∷◌, ◌++◌, some, arith, if_cases, text_eq_refl,
}
use yandex_workspace_mcp.Errors.{Result, ok}
use yandex_workspace_mcp.Auth.Records.{Kind, AuthRecord, kind_name, kind_of, expiry}
use yandex_workspace_mcp.Auth.Stores.{
  Crypto, StoredRecord, TokenStore, keys, find_record, pop_all, is_past, lookup_candidates, seal,
  unseal, read_record, search_lookups, get_locked, get, put,
}
use yandex_workspace_mcp.Auth.Stores.SingleUse.{Records, present, first_member}
use yandex_workspace_mcp.Auth.Stores.Lookups.{pop_all-absent, mem_lookup}

-- What AES-GCM promises: what a key encrypted it decrypts.
pub record Opens (crypto : Crypto) : Type 0 where
  pub opens :
      (secret nonce plaintext kind record_key : Text)
      → crypto.decrypt secret nonce
          (crypto.encrypt secret nonce plaintext kind record_key)
          kind
          record_key
        ≡ some plaintext

-- What the JSON of a record promises: it is read back as the record.
abbrev pub IsReadable : Crypto → AuthRecord → Type 0
IsReadable crypto r = crypto.validate (kind_of r) (crypto.dump r) ≡ some r

find_record-append :
    (x : Text) (records : Records) (raw : StoredRecord)
    → present x records ≡ false
    → find_record x (records ++ ((x, raw) ∷ [])) ≡ some raw
unfolding find_record
find_record-append x [] raw h = rw (text_eq_refl x) refl
find_record-append x (entry ∷ records) raw h =
    ground (arith, find_record-append x records raw (ground arith))

module _ (crypto : Crypto) (aead : Opens crypto) where
  unseal-seal :
      (s : TokenStore) (nonce : Text) (kind : Kind) (key plaintext : Text)
      → unseal crypto (keys s) kind key (seal crypto s nonce kind key plaintext) ≡ some plaintext
  unfolding unseal seal
  unseal-seal s nonce kind key plaintext =
      rw (text_eq_refl (crypto.key_id s.first_key), unseal)
        (aead.opens s.first_key nonce plaintext (kind_name kind) key)

  -- What `put` stores.
  abbrev stored : TokenStore → Text → Text → AuthRecord → StoredRecord
  stored s nonce key r = record {
    kind = kind_name (kind_of r);
    encrypted = seal crypto s nonce (kind_of r) key (crypto.dump r);
    expires_at = expiry r;
  }

  read_record-stored :
      (s : TokenStore) (nonce key : Text) (r : AuthRecord)
      → IsReadable crypto r
      → read_record crypto s (kind_of r) key (stored s nonce key r) ≡ ok r
  unfolding read_record
  read_record-stored s nonce key r readable =
      rw (unseal-seal s nonce (kind_of r) key (crypto.dump r), readable, read_record) refl

  get-stored :
      (now : ℕ) (kind : Kind) (key : Text) (t : TokenStore) (raw : StoredRecord) (r : AuthRecord)
      → t.closed ≡ false
      → find_record (crypto.lookup t.first_key (kind_name kind) key) t.records ≡ some raw
      → raw.kind ≡ kind_name kind
      → is_past now raw.expires_at ≡ false
      → read_record crypto t kind key raw ≡ ok r
      → (get crypto now kind key t).0 ≡ ok r
  unfolding get get_locked lookup_candidates search_lookups
  get-stored now kind key t raw r is_open found same_kind current readable =
      let found_it : (get_locked crypto now kind key t).0
          ≡ ok (crypto.lookup t.first_key (kind_name kind) key, r) =
        if_cases
          (λ (run : Result (Text × AuthRecord) × TokenStore).
            run.0 ≡ ok (crypto.lookup t.first_key (kind_name kind) key, r))
          t.closed _ _ (λ closed. absurd (ground (arith, closed, is_open)))
          (λ _.
            rw (found, same_kind, text_eq_refl (kind_name kind), current, readable, search_lookups)
              refl) in
      rw (found_it, get) refl

  -- A record that is put in an open store is what a lookup under its kind and key returns as long as it
  -- has not expired.
  pub get-put :
      (nonce key : Text) (r : AuthRecord) (now : ℕ) (s : TokenStore)
      → IsReadable crypto r
      → s.closed ≡ false
      → is_past now (expiry r) ≡ false
      → (get crypto now (kind_of r) key (put crypto nonce (kind_of r) key r s).1).0 ≡ ok r
  unfolding put read_record
  get-put nonce key r now s readable is_open current =
      let lookups = lookup_candidates crypto (keys s) (kind_of r) key in
      let x = crypto.lookup s.first_key (kind_name (kind_of r)) key in
      let raw : StoredRecord = stored s nonce key r in
      let gone = pop_all-absent x lookups s.records (
        mem_lookup crypto s.first_key (keys s) (kind_of r) key
          (first_member s.first_key s.other_keys)) in
      if_cases
        (λ (run : Result (Unit {0}) × TokenStore). (get crypto now (kind_of r) key run.1).0 ≡ ok r)
        s.closed _ _ (λ closed. absurd (ground (arith, closed, is_open)))
        (λ _.
          get-stored now (kind_of r) key
            (record s { records = pop_all lookups s.records ++ ((x, raw) ∷ []) }) raw r is_open
            (find_record-append x (pop_all lookups s.records) raw gone) refl current
            (read_record-stored s nonce key r readable))
