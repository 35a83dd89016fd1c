-- ===== src/Policies/Cursors/Signed.antt =====
-- policies/cursors.py: what a token is that `_decode` opens, and what the comparisons of hashes say.
use yandex_workspace_mcp.Prelude.{
  ℕ, ◌≤◌, ◌≡◌, refl, ap, subst, ◌∙◌, ◌⊎◌, inl, inr, Bool, true, false, not, ◌&&◌, ◌||◌, Text, text,
  List, [], ◌∷◌, ◌++◌, Option, none, some, ltb, ◌==◌, arith, Some, all, any, map, length,
  text_eq_sound, join, split, Bool-cases, Option-cases,
}
use yandex_workspace_mcp.Prelude.Split.{join-split}
use yandex_workspace_mcp.Errors.{ok, >>=-ok, raise_if-ok, ok-injective}
use yandex_workspace_mcp.Python.Base64
use yandex_workspace_mcp.Models.Wiki.Json.{
  Json, json_none, json_text, json_bool, json_int, json_float, json_list, json_dict, Entries,
}
use yandex_workspace_mcp.Policies.Cursors.{
  Primitives, KeyRing, ring_keys, decode_base64url, compare_digest, compare_any,
  identity_hash_with_key, matches_principal, is_signature, dict_or_fail, open_parts, open_split,
  decode_payload,
}

-- A test that passes somewhere passes at some element.
pub any-Some {ℓ} :
    {A : Type ℓ} (f : A → Bool) (xs : List A) → any f xs ≡ true → Some (λ x. f x ≡ true) xs
any-Some f [] h = absurd cc
any-Some f (x ∷ xs) h = elim (Bool-cases (f x)) [
  | inl hit ↦ inl hit
  | inr miss ↦ inr (any-Some f xs (rw miss at h))
]

pub not-false : {b : Bool} → not b ≡ false → b ≡ true
not-false {b = true} e = refl
not-false {b = false} e = absurd cc

pub Some-map {ℓ} :
    {A : Type ℓ} {P Q : A → Type 0} (xs : List A) → ((x : A) → P x → Q x) → Some P xs → Some Q xs
Some-map [] step h = h
Some-map (x ∷ xs) step (inl h) = inl (step x h)
Some-map (x ∷ xs) step (inr h) = inr (Some-map xs step h)

decode_base64url-ok :
    (s : Text) {bytes : List ℕ} → decode_base64url s ≡ ok bytes → Base64.decode s ≡ some bytes
unfolding decode_base64url
decode_base64url-ok [] h = absurd cc
decode_base64url-ok (c ∷ s) h = elim (Option-cases (Base64.decode (c ∷ s))) [
  | inl nothing ↦ absurd (let e = rw (decode_base64url, nothing) at h in cc)
  | inr (bytes', e) ↦ e ∙ ap some (ok-injective (rw (decode_base64url, e) at h))
]

pub compare_digest_sound : (a b : Text) → compare_digest a b ≡ ok true → a ≡ b
unfolding compare_digest
compare_digest_sound a b h = elim (Bool-cases (all (λ c. ltb c 128) a && all (λ c. ltb c 128) b)) [
  | inl ascii ↦ text_eq_sound a b (ok-injective (rw ascii at h))
  | inr other ↦ absurd (let e = rw other at h in cc)
]

or_cases : (a b : Bool) → (a || b) ≡ true → (a ≡ true) ⊎ (b ≡ true)
or_cases true b h = inl refl
or_cases false b h = inr h

pub compare_any_sound {ℓ} :
    {A : Type ℓ} (a : Text) (hash : A → Text) (xs : List A)
    → compare_any a (map hash xs) ≡ ok true
    → Some (λ x. a ≡ hash x) xs
unfolding compare_any
compare_any_sound a hash [] h = absurd cc
compare_any_sound a hash (x ∷ xs) h =
    let (this, compared, h1) = >>=-ok (compare_digest a (hash x)) _ h in
    let (rest, others, h2) = >>=-ok (compare_any a (map hash xs)) _ h1 in
    elim (or_cases this rest (ok-injective h2)) [
      | inl same ↦ inl (compare_digest_sound a (hash x) (compared ∙ ap ok same))
      | inr later ↦ inr (compare_any_sound a hash xs (others ∙ ap ok later))
    ]

module _ (p : Primitives) (ring : KeyRing) where
  -- A token with its signature: that of one of the keys, over what stands before the dot.
  pub record IsSigned (token : Text) (entries : Entries) : Type 0 where
    pub encoded : Text
    pub supplied_signature : Text
    pub raw : List ℕ
    pub is_token : token ≡ encoded ++ (b'.' ∷ supplied_signature)
    pub is_raw : Base64.decode encoded ≡ some raw
    pub is_short : length raw ≤ 8192
    pub has_signature :
        Some
          (λ key. Base64.decode supplied_signature ≡ some (p.hmac_sha256 key encoded))
          (ring_keys ring)
    pub is_payload : p.loads raw ≡ some (json_dict entries)

  dict_or_fail-ok :
      (o : Option Json) {entries : Entries}
      → dict_or_fail p ring o ≡ ok entries
      → o ≡ some (json_dict entries)
  dict_or_fail-ok none h = absurd cc
  dict_or_fail-ok (some json_none) h = absurd cc
  dict_or_fail-ok (some (json_text _)) h = absurd cc
  dict_or_fail-ok (some (json_bool _)) h = absurd cc
  dict_or_fail-ok (some (json_int _)) h = absurd cc
  dict_or_fail-ok (some (json_float _ _)) h = absurd cc
  dict_or_fail-ok (some (json_list _)) h = absurd cc
  dict_or_fail-ok (some (json_dict dict)) h = ap (λ e. some (json_dict e)) (ok-injective h)

  is_signature_sound :
      (signature : List ℕ) (encoded : Text)
      → is_signature p ring signature encoded ≡ true
      → Some (λ key. signature ≡ p.hmac_sha256 key encoded) (ring_keys ring)
  unfolding is_signature
  is_signature_sound signature encoded h =
      Some-map (ring_keys ring) (λ key. text_eq_sound signature (p.hmac_sha256 key encoded))
        (any-Some _ (ring_keys ring) h)

  open_parts-IsSigned :
      (encoded supplied : Text) {entries : Entries}
      → open_parts p ring encoded supplied ≡ ok entries
      → IsSigned (encoded ++ (b'.' ∷ supplied)) entries
  unfolding open_parts
  open_parts-IsSigned encoded supplied h =
      let (raw, is_raw, h1) = >>=-ok (decode_base64url encoded) _ h in
      let (signature, given, h2) = >>=-ok (decode_base64url supplied) _ h1 in
      let (short, h3) = raise_if-ok _ _ _ h2 in
      let (known, h4) = raise_if-ok _ _ _ h3 in
      record {
        encoded = encoded;
        supplied_signature = supplied;
        raw = raw;
        is_token = refl;
        is_raw = decode_base64url-ok encoded is_raw;
        is_short = short_of (length raw) (not (length signature == 32)) short;
        has_signature =
            Some-map (ring_keys ring)
              (λ key same. decode_base64url-ok supplied given ∙ ap some same)
              (is_signature_sound signature encoded (not-false known));
        is_payload = dict_or_fail-ok (p.loads raw) h4;
      }
    where
      short_of : (n : ℕ) (b : Bool) → (ltb 8192 n || b) ≡ false → n ≤ 8192
      short_of n b e = elim (Bool-cases (ltb 8192 n)) [
        | inl long ↦ absurd (let f = rw long at e in cc)
        | inr not_long ↦ ground (arith, not_long)
      ]

  open_split-IsSigned :
      (parts : List Text) {entries : Entries}
      → open_split p ring parts ≡ ok entries
      → IsSigned (join b'.' parts) entries
  unfolding join
  open_split-IsSigned [] h = absurd cc
  open_split-IsSigned (a ∷ []) h = absurd cc
  open_split-IsSigned (a ∷ (b ∷ [])) h = open_parts-IsSigned a b h
  open_split-IsSigned (a ∷ (b ∷ (c ∷ parts))) h = absurd cc

  -- A token that `_decode` opens is signed.
  pub decode_payload-IsSigned :
      (token : Text) {entries : Entries}
      → decode_payload p ring token ≡ ok entries
      → IsSigned token entries
  unfolding decode_payload
  decode_payload-IsSigned token {entries} h =
      subst (λ t. IsSigned t entries) (join-split b'.' token)
        (open_split-IsSigned (split b'.' token) h)

  pub matches_principal_sound :
      (stored principal : Text)
      → matches_principal p ring stored principal ≡ ok true
      → Some
          (λ key. stored ≡ identity_hash_with_key p key (text "principal") principal)
          (ring_keys ring)
  unfolding matches_principal
  matches_principal_sound stored principal h =
      compare_any_sound stored (λ key. identity_hash_with_key p key (text "principal") principal)
        (ring_keys ring) h
