-- ===== src/Auth/Stores/Tests.antt =====
-- Runs of the token store with functions in place of the cryptography that keep their arguments
-- readable.
use yandex_workspace_mcp.Prelude.{
  ◌+◌, ◌≡◌, refl, true, Text, text, [], ◌∷◌, none, some, arith, text_eq,
}
use yandex_workspace_mcp.Errors.{ok, err, token_store_miss}
use yandex_workspace_mcp.Auth.Records.{AuthRecord, authorization_code, code_record}
use yandex_workspace_mcp.Auth.Stores.{
  Crypto, TokenStore, find_record, pop_record, pop_all, lookup_candidates, seal, unseal, put,
  read_record, search_lookups, get_locked, get, consume,
}
use yandex_workspace_mcp.Auth.Stores.Lookups.{LookupInjective}
use yandex_workspace_mcp.Auth.Stores.Served.{empty_store, Served, starts, puts, consumed_once}
use yandex_workspace_mcp.Auth.Stores.RoundTrip.{Opens, get-put}

-- A text, a mark for its end, and what follows.
unfoldable framed : Text → Text → Text
framed [] rest = 0 ∷ rest
framed (c ∷ t) rest = (c + 1) ∷ framed t rest

framed-injective : (s t a b : Text) → framed s a ≡ framed t b → (s ≡ t) × (a ≡ b)
unfolding framed
framed-injective [] [] a b h = (refl, ground (arith, h))
framed-injective [] (c ∷ t) a b h = absurd (ground (arith, h))
framed-injective (c ∷ s) [] a b h = absurd (ground (arith, h))
framed-injective (c ∷ s) (d ∷ t) a b h =
    let (same, rest) = framed-injective s t a b (ground (arith, h)) in
    (ground (arith, h, same), rest)

abbrev framed_lookup : Text → Text → Text → Text
framed_lookup secret kind key = framed secret (framed kind key)

abbrev the_code : AuthRecord
the_code = code_record (record {
  client_id = text "client";
  redirect_uri = text "https://a";
  scopes = [];
  code_challenge = text "challenge";
  resource = none;
  subject = text "user";
  expires_at = 100;
  redirect_uri_provided_explicitly = true;
})

abbrev plain_crypto : Crypto
plain_crypto = record {
  lookup = framed_lookup;
  key_id = λ secret. secret;
  encrypt = λ secret nonce plaintext kind record_key. plaintext;
  decrypt = λ secret nonce ciphertext kind record_key. some ciphertext;
  dump = λ r. [];
  validate = λ kind payload. some the_code;
}

plain_crypto-LookupInjective : LookupInjective plain_crypto
plain_crypto-LookupInjective = record {
  same_secret =
      λ a b kind kind' key key' h. (framed-injective a b (framed kind key) (framed kind' key') h).0;
  same_kind = λ a b kind kind' key key' h.
      (framed-injective kind kind' key key'
        (framed-injective a b (framed kind key) (framed kind' key') h).1).0;
  same_key = λ a b kind kind' key key' h.
      (framed-injective kind kind' key key'
        (framed-injective a b (framed kind key) (framed kind' key') h).1).1;
}

abbrev one_code : TokenStore
one_code =
    (put plain_crypto (text "n") authorization_code (text "c") the_code
      (empty_store (text "k") [])).1

one_code-Served : Served plain_crypto (empty_store (text "k") []) one_code
one_code-Served = puts (text "n") authorization_code (text "c") the_code starts

unfoldable runs : Unit {0}
unfolding framed text_eq find_record pop_record pop_all lookup_candidates seal unseal put
    read_record search_lookups get_locked get consume
runs = tt

consumed : (consume plain_crypto 5 authorization_code (text "c") one_code).0 ≡ ok the_code
unfolding runs
consumed = refl

expired : (consume plain_crypto 100 authorization_code (text "c") one_code).0 ≡ err token_store_miss
unfolding runs
expired = refl

consumed_once_example :
    ((get plain_crypto 6 authorization_code
        (text "c")
        (consume plain_crypto 5 authorization_code (text "c") one_code).1).0
      ≡ err token_store_miss)
    × ((consume plain_crypto 6 authorization_code
          (text "c")
          (consume plain_crypto 5 authorization_code (text "c") one_code).1).0
        ≡ err token_store_miss)
consumed_once_example =
    consumed_once plain_crypto plain_crypto-LookupInjective (text "k") [] one_code 5 6
      authorization_code (text "c") one_code-Served consumed

plain_crypto-Opens : Opens plain_crypto
plain_crypto-Opens = record { opens = λ secret nonce plaintext kind record_key. refl }

get-put_example :
    (get plain_crypto 5 authorization_code
      (text "c")
      (put plain_crypto
        (text "n")
        authorization_code
        (text "c")
        the_code
        (empty_store (text "k") [])).1).0
    ≡ ok the_code
get-put_example =
    get-put plain_crypto plain_crypto-Opens (text "n") (text "c") the_code 5
      (empty_store (text "k") []) refl refl refl
