-- ===== src/Auth/Stores/Reached.antt =====
-- The stores that the methods lead to.
use yandex_workspace_mcp.Prelude.{
  ℕ, ◌≡◌, sym, subst, inl, inr, true, not, Text, List, [], ◌∷◌, ◌++◌, Option, none, some, if_cases,
  text_eq, arith, Bool-cases, Option-cases,
}
use yandex_workspace_mcp.Errors.{Result, ok, err, Result-cases}
use yandex_workspace_mcp.Auth.Records.{
  Kind, AuthRecord, kind_name, expiry, access_token, refresh_token, access_record, refresh_record,
  AccessTokenRecord, RefreshTokenRecord,
}
use yandex_workspace_mcp.Auth.Stores.{
  Crypto, StoredRecord, TokenStore, keys, find_record, pop_record, pop_all, is_past,
  lookup_candidates, read_record, search_lookups, get_locked, get, consume, put, seal, revoke,
  close, put_pair, replace_pair, pop_linked, linked, is_pair,
}
use yandex_workspace_mcp.Auth.Stores.SingleUse.{Records, present, present-pop_record, Single}
use yandex_workspace_mcp.Auth.Stores.Lookups.{
  LookupInjective, Single-added, Single-fewer, present-pop_all,
}

module _ (crypto : Crypto) where
  module _ (injective : LookupInjective crypto) where
    -- A store in which no two keys have a record for one thing, and the keys that it has.
    pub record Sound (secrets : List Text) (s : TokenStore) : Type 0 where
      pub same_keys : keys s ≡ secrets
      pub single : Single crypto secrets s.records

    pub put-Sound :
        (nonce : Text) (kind : Kind) (key : Text) (r : AuthRecord) (secrets : List Text)
        (s : TokenStore)
        → Sound secrets s
        → Sound secrets (put crypto nonce kind key r s).1
    unfolding put
    put-Sound nonce kind key r secrets s v =
        let added : StoredRecord = record {
          kind = kind_name kind;
          encrypted = seal crypto s nonce kind key (crypto.dump r);
          expires_at = expiry r;
        } in
        if_cases (λ (run : Result (Unit {0}) × TokenStore). Sound secrets run.1) s.closed _ _
          (λ closed. v)
          (λ is_open. record {
            same_keys = v.same_keys;
            single =
                subst
                  (λ k. Single crypto secrets (
                    pop_all (lookup_candidates crypto k kind key) s.records
                    ++ ((crypto.lookup s.first_key (kind_name kind) key, added) ∷ [])))
                  (sym v.same_keys)
                  (Single-added crypto injective secrets kind key s.first_key added s.records
                    v.single);
          })

    Sound-fewer :
        (secrets : List Text) (s : TokenStore) (records : Records)
        → ((x : Text) → present x records ≡ true → present x s.records ≡ true)
        → Sound secrets s
        → Sound secrets (record s { records = records })
    Sound-fewer secrets s records fewer v = record {
      same_keys = v.same_keys;
      single = Single-fewer crypto secrets s.records records fewer v.single;
    }

    search_lookups-Sound :
        (now : ℕ) (kind : Kind) (key : Text) (lookups secrets : List Text) (s : TokenStore)
        → Sound secrets s
        → Sound secrets (search_lookups crypto now kind key lookups s).1
    unfolding search_lookups
    search_lookups-Sound now kind key [] secrets s v = v
    search_lookups-Sound now kind key (lookup ∷ lookups) secrets s v =
        let later = search_lookups-Sound now kind key lookups secrets s v in
        elim (Option-cases (find_record lookup s.records)) [
          | inl nothing ↦ rw (nothing, search_lookups) later
          | inr (raw, e) ↦ elim (Bool-cases (text_eq raw.kind (kind_name kind))) [
            | inr other ↦ rw (e, other, search_lookups) later
            | inl same_kind ↦ elim (Bool-cases (is_past now raw.expires_at)) [
              | inl past ↦
                  rw (e, same_kind, past, search_lookups)
                    (Sound-fewer secrets s (pop_record lookup s.records)
                      (λ x h. present-pop_record x lookup s.records h) v)
              | inr current ↦ elim (Result-cases (read_record crypto s kind key raw)) [
                | inl (r, read) ↦ rw (e, same_kind, current, read, search_lookups) v
                | inr (x, failed) ↦ rw (e, same_kind, current, failed, search_lookups) v
              ]
            ]
          ]
        ]

    get_locked-Sound :
        (now : ℕ) (kind : Kind) (key : Text) (secrets : List Text) (s : TokenStore)
        → Sound secrets s
        → Sound secrets (get_locked crypto now kind key s).1
    unfolding get_locked
    get_locked-Sound now kind key secrets s v =
        if_cases (λ (run : Result (Text × AuthRecord) × TokenStore). Sound secrets run.1) s.closed _
          _ (λ closed. v)
          (λ is_open.
            search_lookups-Sound now kind key (lookup_candidates crypto (keys s) kind key) secrets s
              v)

    pub get-Sound :
        (now : ℕ) (kind : Kind) (key : Text) (secrets : List Text) (s : TokenStore)
        → Sound secrets s
        → Sound secrets (get crypto now kind key s).1
    unfolding get
    get-Sound now kind key secrets s v =
        let after = get_locked-Sound now kind key secrets s v in
        elim (Result-cases (get_locked crypto now kind key s).0) [
          | inl (answer, e) ↦ rw (e, get) after
          | inr (x, e) ↦ rw (e, get) after
        ]

    pub consume-Sound :
        (now : ℕ) (kind : Kind) (key : Text) (secrets : List Text) (s : TokenStore)
        → Sound secrets s
        → Sound secrets (consume crypto now kind key s).1
    unfolding consume
    consume-Sound now kind key secrets s v =
        let after = get_locked-Sound now kind key secrets s v in
        elim (Result-cases (get_locked crypto now kind key s).0) [
          | inr (x, e) ↦ rw (e, consume) after
          | inl (answer, e) ↦
              rw (e, consume)
                (Sound-fewer secrets (get_locked crypto now kind key s).1 _
                  (λ x h.
                    present-pop_record x answer.0 (get_locked crypto now kind key s).1.records h)
                  after)
        ]

    pub revoke-Sound :
        (kind : Kind) (key : Text) (secrets : List Text) (s : TokenStore)
        → Sound secrets s
        → Sound secrets (revoke crypto kind key s)
    unfolding revoke
    revoke-Sound kind key secrets s v =
        Sound-fewer secrets s _
          (λ x h. present-pop_all x (lookup_candidates crypto (keys s) kind key) s.records h) v

    pub close-Sound :
        (secrets : List Text) (s : TokenStore) → Sound secrets s → Sound secrets (close crypto s)
    unfolding close
    close-Sound secrets s v =
        if_cases (Sound secrets) s.closed _ _ (λ closed. v)
          (λ is_open. record {
            same_keys = v.same_keys;
            single = λ kind key a b ma mb pa pb. absurd (ground (arith, pa));
          })

    pub put_pair-Sound :
        (access_nonce refresh_nonce access refresh : Text) (new_access : AccessTokenRecord)
        (new_refresh : RefreshTokenRecord) (secrets : List Text) (s : TokenStore)
        → Sound secrets s
        → Sound secrets
            (put_pair crypto access_nonce refresh_nonce access refresh new_access new_refresh s).1
    unfolding put_pair
    put_pair-Sound access_nonce refresh_nonce access refresh new_access new_refresh secrets s v =
        let first = put crypto access_nonce access_token access (access_record new_access) s in
        let after =
          put-Sound access_nonce access_token access (access_record new_access) secrets s v in
        if_cases (λ (run : Result (Unit {0}) × TokenStore). Sound secrets run.1)
          (not (is_pair access new_access refresh new_refresh)) _ _ (λ bad. v)
          (λ good. elim (Result-cases first.0) [
            | inl (done, e) ↦ rw e (
                put-Sound refresh_nonce refresh_token refresh (refresh_record new_refresh) secrets
                  first.1 after)
            | inr (x, e) ↦ rw e after
          ])

    pop_linked-Sound :
        (access : Option Text) (secrets : List Text) (s : TokenStore)
        → Sound secrets s
        → Sound secrets (pop_linked crypto access s)
    unfolding pop_linked
    pop_linked-Sound none secrets s v = v
    pop_linked-Sound (some access) secrets s v =
        if_cases (Sound secrets) (text_eq access []) _ _ (λ nothing. v)
          (λ one. revoke-Sound access_token access secrets s v)

    pub replace_pair-Sound :
        (refresh_nonce access_nonce new_refresh_token : Text)
        (new_refresh_record : RefreshTokenRecord) (new_access_token : Text)
        (new_access_record : AccessTokenRecord) (secrets : List Text) (old : Result AuthRecord)
        (s : TokenStore)
        → Sound secrets s
        → Sound secrets
            (replace_pair crypto refresh_nonce access_nonce new_refresh_token new_refresh_record
              new_access_token new_access_record
              (old, s)).1
    unfolding replace_pair
    replace_pair-Sound refresh_nonce access_nonce new_refresh_token new_refresh_record
          new_access_token new_access_record secrets (err e) s v =
        v
    replace_pair-Sound refresh_nonce access_nonce new_refresh_token new_refresh_record
          new_access_token new_access_record secrets (ok old_record) s v =
        let cleared = pop_linked-Sound (linked crypto old_record) secrets s v in
        let refreshed =
          put crypto refresh_nonce refresh_token new_refresh_token
            (refresh_record new_refresh_record) (pop_linked crypto (linked crypto old_record) s) in
        let after =
          put-Sound refresh_nonce refresh_token new_refresh_token
            (refresh_record new_refresh_record) secrets _ cleared in
        let replaced =
          put crypto access_nonce access_token new_access_token (access_record new_access_record)
            refreshed.1 in
        let last =
          put-Sound access_nonce access_token new_access_token (access_record new_access_record)
            secrets refreshed.1 after in
        elim (Result-cases refreshed.0) [
          | inr (x, e) ↦ rw (e, replace_pair) after
          | inl (done, e) ↦ elim (Result-cases replaced.0) [
            | inr (x, f) ↦ rw (e, f, replace_pair) last
            | inl (done', f) ↦ rw (e, f, replace_pair) last
          ]
        ]
