-- ===== src/Auth/Stores/Served.antt =====
-- A token store from its start on, under any calls.
use yandex_workspace_mcp.Prelude.{ℕ, ◌≡◌, refl, false, not, Text, List, [], ◌∷◌, arith, if_cases}
use yandex_workspace_mcp.Errors.{Result, ok, err, token_store_miss}
use yandex_workspace_mcp.Auth.Records.{
  Kind, AuthRecord, AccessTokenRecord, RefreshTokenRecord, refresh_token,
}
use yandex_workspace_mcp.Auth.Stores.{
  Crypto, TokenStore, put, get, consume, revoke, close, put_pair, rotate, is_pair,
}
use yandex_workspace_mcp.Auth.Stores.SingleUse.{consumed_gone}
use yandex_workspace_mcp.Auth.Stores.Lookups.{LookupInjective}
use yandex_workspace_mcp.Auth.Stores.Reached.{
  Sound, put-Sound, get-Sound, consume-Sound, revoke-Sound, close-Sound, put_pair-Sound,
  replace_pair-Sound,
}

-- InMemoryTokenStore.__init__ without records.
abbrev pub empty_store : Text → List Text → TokenStore
empty_store first_key other_keys = record {
  first_key = first_key;
  other_keys = other_keys;
  records = [];
  closed = false;
}

module _ (crypto : Crypto) where
  -- What some calls lead to, whether they succeed or not.
  pub data Served (s : TokenStore) : TokenStore → Type 0 where
    starts : Served s s
    puts :
        {t : TokenStore} (nonce : Text) (kind : Kind) (key : Text) (r : AuthRecord)
        → Served s t
        → Served s (put crypto nonce kind key r t).1
    gets :
        {t : TokenStore} (now : ℕ) (kind : Kind) (key : Text)
        → Served s t
        → Served s (get crypto now kind key t).1
    consumes :
        {t : TokenStore} (now : ℕ) (kind : Kind) (key : Text)
        → Served s t
        → Served s (consume crypto now kind key t).1
    revokes :
        {t : TokenStore} (kind : Kind) (key : Text)
        → Served s t
        → Served s (revoke crypto kind key t)
    closes : {t : TokenStore} → Served s t → Served s (close crypto t)
    puts_pair :
        {t : TokenStore} (access_nonce refresh_nonce access refresh : Text)
        (new_access : AccessTokenRecord) (new_refresh : RefreshTokenRecord)
        → Served s t
        → Served s
            (put_pair crypto access_nonce refresh_nonce access refresh new_access new_refresh t).1
    rotates :
        {t : TokenStore} (now : ℕ) (refresh_nonce access_nonce old_token new_token : Text)
        (new_refresh : RefreshTokenRecord) (access : Text) (new_access : AccessTokenRecord)
        → Served s t
        → Served s
            (rotate crypto now refresh_nonce access_nonce old_token new_token new_refresh access
              new_access t).1

  module _ (injective : LookupInjective crypto) where
    rotate-Sound :
        (now : ℕ) (refresh_nonce access_nonce old_token new_token : Text)
        (new_refresh : RefreshTokenRecord) (access : Text) (new_access : AccessTokenRecord)
        (secrets : List Text) (t : TokenStore)
        → Sound crypto injective secrets t
        → Sound crypto injective secrets
            (rotate crypto now refresh_nonce access_nonce old_token new_token new_refresh access
              new_access t).1
    unfolding rotate
    rotate-Sound now refresh_nonce access_nonce old_token new_token new_refresh access new_access
          secrets t v =
        if_cases (λ (run : Result AuthRecord × TokenStore). Sound crypto injective secrets run.1)
          (not (is_pair access new_access new_token new_refresh)) _ _ (λ bad. v)
          (λ good.
            replace_pair-Sound crypto injective refresh_nonce access_nonce new_token new_refresh
              access new_access secrets (consume crypto now refresh_token old_token t).0
              (consume crypto now refresh_token old_token t).1
              (consume-Sound crypto injective now refresh_token old_token secrets t v))

    Served-Sound :
        {s t : TokenStore} (secrets : List Text)
        → Sound crypto injective secrets s
        → Served s t
        → Sound crypto injective secrets t
    Served-Sound secrets v starts = v
    Served-Sound secrets v (puts {t = t} nonce kind key r h) =
        put-Sound crypto injective nonce kind key r secrets t (Served-Sound secrets v h)
    Served-Sound secrets v (gets {t = t} now kind key h) =
        get-Sound crypto injective now kind key secrets t (Served-Sound secrets v h)
    Served-Sound secrets v (consumes {t = t} now kind key h) =
        consume-Sound crypto injective now kind key secrets t (Served-Sound secrets v h)
    Served-Sound secrets v (revokes {t = t} kind key h) =
        revoke-Sound crypto injective kind key secrets t (Served-Sound secrets v h)
    Served-Sound secrets v (closes {t = t} h) =
        close-Sound crypto injective secrets t (Served-Sound secrets v h)
    Served-Sound secrets v
          (puts_pair {t = t} access_nonce refresh_nonce access refresh new_access new_refresh h) =
        put_pair-Sound crypto injective access_nonce refresh_nonce access refresh new_access
          new_refresh secrets t (Served-Sound secrets v h)
    Served-Sound secrets v
          (rotates {t = t} now refresh_nonce access_nonce old_token new_token new_refresh access
            new_access h) =
        rotate-Sound now refresh_nonce access_nonce old_token new_token new_refresh access
          new_access secrets t (Served-Sound secrets v h)

    -- Where HMAC has no collisions: in every state of a token store, whatever calls led to it, a record
    -- that is consumed (a sign-in state, an authorization code, a refresh token, a recovery handle) is
    -- gone, and neither a lookup nor a second consumption finds it, at any time.
    pub consumed_once :
        (first_key : Text) (other_keys : List Text) (s : TokenStore) (now later : ℕ) (kind : Kind)
        (key : Text) {r : AuthRecord}
        → Served (empty_store first_key other_keys) s
        → (consume crypto now kind key s).0 ≡ ok r
        → ((get crypto later kind key (consume crypto now kind key s).1).0 ≡ err token_store_miss)
          × ((consume crypto later kind key (consume crypto now kind key s).1).0
              ≡ err token_store_miss)
    consumed_once first_key other_keys s now later kind key served h =
        let start : Sound crypto injective (first_key ∷ other_keys)
            (empty_store first_key other_keys) =
          record {
            same_keys = refl;
            single = λ kind key a b ma mb pa pb. absurd (ground (arith, pa));
          } in
        let v = Served-Sound (first_key ∷ other_keys) start served in
        consumed_gone crypto now later kind key s (rw v.same_keys v.single) h
