-- ===== src/Policies/Cursors.antt =====
-- policies/cursors.py: the keys, the hashes and the signed tokens of `CursorCodec`.
pub mod Models
pub mod Codec
pub mod Signed
pub mod RoundTrip
mod Limits
pub mod Tokens
pub mod Bindings
pub mod Paging
pub mod Sums
mod Tests
use yandex_workspace_mcp.Prelude.{
  ℕ, Bool, true, false, not, ◌&&◌, ◌||◌, Text, text, List, [], ◌∷◌, ◌++◌, Option, none, some, ltb,
  leb, ◌==◌, if◌then◌else◌, all, any, map, take, length, text_eq, has_char, split, join,
}
use yandex_workspace_mcp.Errors.{Result, ok, err, value_error, type_error, raise_if, ◌>>=◌, ◌>>◌}
use yandex_workspace_mcp.Python.Base64
use yandex_workspace_mcp.Python.Base64.{encode}
use yandex_workspace_mcp.Models.Wiki.Json.{Json, json_dict, Entries}

-- What the module uses of hmac and hashlib, of json, and of the Unicode tables. `dumps` gives the
-- bytes of `json.dumps(..., sort_keys=True).encode("utf-8")`, or none where a text has no UTF-8; `loads` is none
-- where `json.loads` raises. `utf8` is of texts without lone surrogates.
pub record Primitives : Type 0 where
  pub hmac_sha256 : (key message : List ℕ) → List ℕ
  pub sha256_hex : List ℕ → Text
  pub utf8 : Text → List ℕ
  pub dumps : Json → Option (List ℕ)
  pub loads : List ℕ → Option Json
  pub nfkc : Text → Text
  pub casefold : Text → Text
  pub is_space : ℕ → Bool

-- CursorKeyRing: its keys, of which there is one at least.
pub record KeyRing : Type 0 where
  pub first_key : List ℕ
  pub other_keys : List (List ℕ)

abbrev pub ring_keys : KeyRing → List (List ℕ)
ring_keys ring = ring.first_key ∷ ring.other_keys

unfoldable pub key_ring : List (List ℕ) → Result KeyRing
key_ring [] = err value_error
key_ring (key ∷ keys) =
    if any (λ k. ltb (length k) 32) (key ∷ keys)
    then err value_error
    else ok (record { first_key = key; other_keys = keys })

-- _decode_base64url
unfoldable pub decode_base64url : Text → Result (List ℕ)
decode_base64url [] = err value_error
decode_base64url (c ∷ value) = elim (Base64.decode (c ∷ value)) [
  | none ↦ err value_error
  | some bytes ↦ ok bytes
]

unfoldable pub decode_keys : List Text → Result (List (List ℕ))
decode_keys [] = ok []
decode_keys (value ∷ values) = do
  key ← decode_base64url value
  keys ← decode_keys values
  ok (key ∷ keys)

-- `tuple(value for value in values if value)`
abbrev pub non_empty : List Text → List Text
non_empty [] = []
non_empty ([] ∷ values) = non_empty values
non_empty ((c ∷ value) ∷ values) = (c ∷ value) ∷ non_empty values

-- CursorKeyRing.from_config; `token_bytes` is what the random source gives.
abbrev pub ring_of : Bool → List ℕ → List Text → Result KeyRing
ring_of remote token_bytes [] = if remote then err value_error else key_ring (token_bytes ∷ [])
ring_of remote token_bytes (value ∷ values) = do keys ← decode_keys (value ∷ values); key_ring keys

unfoldable pub from_config : List Text → Bool → List ℕ → Result KeyRing
unfolding decode_keys key_ring
from_config values remote token_bytes = ring_of remote token_bytes (non_empty values)

-- hmac.compare_digest of two texts, which have to be ASCII.
unfoldable pub compare_digest : Text → Text → Result Bool
unfolding text_eq
compare_digest a b =
    if all (λ c. ltb c 128) a && all (λ c. ltb c 128) b then ok (text_eq a b) else err type_error

-- `any([compare_digest(a, b) for b in ...])`: all comparisons are made.
unfoldable pub compare_any : Text → List Text → Result Bool
unfolding compare_digest
compare_any a [] = ok false
compare_any a (b ∷ texts) = do
  this ← compare_digest a b
  rest ← compare_any a texts
  ok (this || rest)

-- `" ".join(normalized.split())`: the words between white space.
abbrev pub end_word : Text → List Text → List Text
end_word [] words = words
end_word (c ∷ word) words = (c ∷ word) ∷ words

unfoldable pub split_words : (ℕ → Bool) → Text → Text → List Text
split_words is_space word [] = end_word word []
split_words is_space word (c ∷ s) =
    let rest = split_words is_space (word ++ c ∷ []) s in
    let words = split_words is_space [] s in if is_space c then end_word word words else rest

module _ (p : Primitives) where
  -- _normalized_query
  unfoldable pub normalized_query : Text → Text
  unfolding split_words join
  normalized_query value = join b' ' (split_words p.is_space [] (p.casefold (p.nfkc value)))

  unfoldable pub query_hash : Text → Text
  unfolding normalized_query
  query_hash query = p.sha256_hex (p.utf8 (normalized_query query))

  -- _identity_hash_with_key
  unfoldable pub identity_hash_with_key : List ℕ → Text → Text → Text
  unfolding encode
  identity_hash_with_key key kind value =
      encode (take 16 (p.hmac_sha256 key (p.utf8 (kind ++ 0 ∷ value))))

  module _ (ring : KeyRing) where
    unfoldable pub principal_hash : Text → Text
    unfolding identity_hash_with_key
    principal_hash principal = identity_hash_with_key ring.first_key (text "principal") principal

    unfoldable pub root_hash : Text → Text
    unfolding identity_hash_with_key
    root_hash root = identity_hash_with_key ring.first_key (text "root") root

    unfoldable pub item_hash : Text → Text → Text
    unfolding identity_hash_with_key
    item_hash source identity =
        identity_hash_with_key ring.first_key (text "item:" ++ source) identity

    -- _matches_principal: under any of the keys.
    unfoldable pub matches_principal : Text → Text → Result Bool
    unfolding compare_any identity_hash_with_key
    matches_principal stored principal =
        compare_any stored
          (map (λ key. identity_hash_with_key key (text "principal") principal) (ring_keys ring))

    -- _encode
    abbrev pub signed : Option (List ℕ) → Result Text
    signed none = err value_error
    signed (some raw) =
        if ltb 8192 (length raw)
        then err value_error
        else ok (encode raw ++ (b'.' ∷ encode (p.hmac_sha256 ring.first_key (encode raw))))

    unfoldable pub encode_payload : Entries → Result Text
    unfolding encode
    encode_payload payload = signed (p.dumps (json_dict payload))

    -- Whether a signature is that of one of the keys.
    unfoldable pub is_signature : List ℕ → Text → Bool
    unfolding text_eq
    is_signature signature encoded =
        any (λ key. text_eq signature (p.hmac_sha256 key encoded)) (ring_keys ring)

    -- `json.loads(raw)`, which has to be a dictionary.
    abbrev pub dict_or_fail : Option Json → Result Entries
    dict_or_fail none = err value_error
    dict_or_fail (some (json_dict entries)) = ok entries
    dict_or_fail (some _) = err type_error

    -- What is done with the two parts of a token.
    unfoldable pub open_parts : Text → Text → Result Entries
    unfolding decode_base64url is_signature
    open_parts encoded supplied_signature = do
      raw ← decode_base64url encoded
      signature ← decode_base64url supplied_signature
      raise_if (ltb 8192 (length raw) || not (length signature == 32)) value_error
      raise_if (not (is_signature signature encoded)) value_error
      dict_or_fail (p.loads raw)

    -- _decode: a token is two parts with a dot between them.
    abbrev pub open_split : List Text → Result Entries
    open_split (encoded ∷ (supplied_signature ∷ [])) = open_parts encoded supplied_signature
    open_split _ = err value_error

    unfoldable pub decode_payload : Text → Result Entries
    unfolding open_parts split
    decode_payload token = open_split (split b'.' token)
