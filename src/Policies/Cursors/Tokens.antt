-- ===== src/Policies/Cursors/Tokens.antt =====
-- policies/cursors.py: `_decode` opens what `_encode` made, with another key ring, too.
use yandex_workspace_mcp.Policies.Cursors.Signed.{Some-map}
use yandex_workspace_mcp.Prelude.{
  ℕ, take, ◌<◌, ◌≡◌, refl, sym, ap, subst, ◌∙◌, inl, inr, Bool, true, false, Text, text, List, [],
  ◌∷◌, ◌++◌, some, ltb, arith, Some, All, all, any, map, length, text_eq, text_eq_refl, has_char,
  join, split, Bool-cases, Option-cases,
}
use yandex_workspace_mcp.Prelude.Split.{split-join}
use yandex_workspace_mcp.Errors.{ok, ok-injective}
use yandex_workspace_mcp.Python.Base64
use yandex_workspace_mcp.Python.Base64.{encode, IsByte, IsPlain, encode-IsPlain, decode-encode}
use yandex_workspace_mcp.Models.Wiki.Json.{json_dict, Entries}
use yandex_workspace_mcp.Policies.Cursors.{
  Primitives, KeyRing, ring_keys, decode_base64url, compare_digest, compare_any,
  identity_hash_with_key, matches_principal, is_signature, signed, encode_payload, open_parts,
  open_split, decode_payload,
}

-- What `hmac.new(key, message, hashlib.sha256).digest()` gives: 32 bytes.
pub record IsDigest (digest : List ℕ) : Type 0 where
  pub has_length : length digest ≡ 32
  pub are_bytes : All IsByte digest

-- The payload is written as some bytes, and these are read as the payload.
pub record IsReadable (p : Primitives) (payload : Entries) : Type 0 where
  pub reads :
      (raw : List ℕ)
      → p.dumps (json_dict payload) ≡ some raw
      → (p.loads raw ≡ some (json_dict payload)) × All IsByte raw × (0 < length raw)

no_dot : (s : Text) → All IsPlain s → has_char b'.' s ≡ false
unfolding has_char
no_dot [] h = refl
no_dot (c ∷ s) h = rw h.0.1 (no_dot s h.1)

pub is_ascii : (s : Text) → All IsPlain s → all (λ c. ltb c 128) s ≡ true
is_ascii [] h = refl
is_ascii (c ∷ s) h = ground (arith, h.0.0, is_ascii s h.1)

pub any_complete {ℓ} :
    {A : Type ℓ} (f : A → Bool) (xs : List A) → Some (λ x. f x ≡ true) xs → any f xs ≡ true
any_complete f [] h = absurd h
any_complete f (x ∷ xs) (inl h) = rw h refl
any_complete f (x ∷ xs) (inr h) = elim (Bool-cases (f x)) [
  | inl hit ↦ rw hit refl
  | inr miss ↦ rw (miss, any_complete f xs h) refl
]

-- What holds a byte is encoded as a text that is not empty.
IsCons : Text → Type 0
IsCons [] = ⊥
IsCons (c ∷ s) = Unit

encode-IsCons : (bytes : List ℕ) → 0 < length bytes → IsCons (encode bytes)
unfolding encode IsCons
encode-IsCons [] h = absurd (omega (arith, h))
encode-IsCons (a ∷ []) h = tt
encode-IsCons (a ∷ (b ∷ [])) h = tt
encode-IsCons (a ∷ (b ∷ (c ∷ bytes))) h = tt

decode_base64url-some :
    (s : Text) {bytes : List ℕ}
    → Base64.decode s ≡ some bytes
    → IsCons s
    → decode_base64url s ≡ ok bytes
unfolding decode_base64url IsCons
decode_base64url-some [] h c = absurd c
decode_base64url-some (c ∷ s) h _ = rw (decode_base64url, h) refl

decode_base64url-encode :
    (bytes : List ℕ)
    → All IsByte bytes
    → 0 < length bytes
    → decode_base64url (encode bytes) ≡ ok bytes
decode_base64url-encode bytes h some_byte =
    decode_base64url-some (encode bytes) (decode-encode bytes h) (encode-IsCons bytes some_byte)

compare_digest-ascii :
    (a b : Text)
    → all (λ c. ltb c 128) a ≡ true
    → all (λ c. ltb c 128) b ≡ true
    → compare_digest a b ≡ ok (text_eq a b)
unfolding compare_digest
compare_digest-ascii a b ha hb = rw (ha, hb) refl

pub compare_digest_refl : (a : Text) → all (λ c. ltb c 128) a ≡ true → compare_digest a a ≡ ok true
compare_digest_refl a h = compare_digest-ascii a a h h ∙ ap ok (text_eq_refl a)

compare_any-ascii {ℓ} :
    {A : Type ℓ} (a : Text) (hash : A → Text) (xs : List A)
    → all (λ c. ltb c 128) a ≡ true
    → ((x : A) → all (λ c. ltb c 128) (hash x) ≡ true)
    → compare_any a (map hash xs) ≡ ok (any (λ x. text_eq a (hash x)) xs)
unfolding compare_any
compare_any-ascii a hash [] ha hh = refl
compare_any-ascii a hash (x ∷ xs) ha hh =
    rw (compare_digest-ascii a (hash x) ha (hh x), compare_any-ascii a hash xs ha hh) refl

module _ (p : Primitives) where
  identity_hash_with_key-ascii :
      (key : List ℕ) (kind value : Text)
      → all (λ c. ltb c 128) (identity_hash_with_key p key kind value) ≡ true
  unfolding identity_hash_with_key
  identity_hash_with_key-ascii key kind value =
      is_ascii _ (encode-IsPlain (take 16 (p.hmac_sha256 key (p.utf8 (kind ++ 0 ∷ value)))))

  -- The hash of a principal under a key matches in each ring with that key.
  pub matches_principal_complete :
      (ring : KeyRing) (key : List ℕ) (principal : Text)
      → Some (λ k. k ≡ key) (ring_keys ring)
      → matches_principal p ring
          (identity_hash_with_key p key (text "principal") principal)
          principal
        ≡ ok true
  unfolding matches_principal
  matches_principal_complete ring key principal known =
      let hash : List ℕ → Text = λ k. identity_hash_with_key p k (text "principal") principal in
      compare_any-ascii (hash key) hash (ring_keys ring)
        (identity_hash_with_key-ascii key (text "principal") principal)
        (λ k. identity_hash_with_key-ascii k (text "principal") principal)
      ∙ ap ok (
          any_complete (λ k. text_eq (hash key) (hash k)) (ring_keys ring)
            (Some-map (ring_keys ring)
              (λ k same.
                subst (λ j. text_eq (hash key) (hash j) ≡ true) (sym same)
                  (text_eq_refl (hash key)))
              known))

  is_signature_complete :
      (ring : KeyRing) (key : List ℕ) (encoded : Text)
      → Some (λ k. k ≡ key) (ring_keys ring)
      → is_signature p ring (p.hmac_sha256 key encoded) encoded ≡ true
  unfolding is_signature
  is_signature_complete ring key encoded known = any_complete _ (ring_keys ring) (
      Some-map (ring_keys ring)
        (λ k same.
          subst (λ j. text_eq (p.hmac_sha256 key encoded) (p.hmac_sha256 j encoded) ≡ true)
            (sym same) (text_eq_refl (p.hmac_sha256 key encoded)))
        known)

  open_parts-encode :
      (ring : KeyRing) (key raw : List ℕ) (payload : Entries)
      → Some (λ k. k ≡ key) (ring_keys ring)
      → IsDigest (p.hmac_sha256 key (encode raw))
      → p.loads raw ≡ some (json_dict payload)
      → All IsByte raw
      → 0 < length raw
      → ltb 8192 (length raw) ≡ false
      → open_parts p ring (encode raw) (encode (p.hmac_sha256 key (encode raw))) ≡ ok payload
  unfolding open_parts
  open_parts-encode ring key raw payload known digest read bytes some_byte short =
      rw
        (
          decode_base64url-encode raw bytes some_byte,
          decode_base64url-encode (p.hmac_sha256 key (encode raw)) digest.are_bytes
              (omega (arith, digest.has_length)),
          short,
          digest.has_length,
          is_signature_complete ring key (encode raw) known,
          read,
        )
        refl

  split-token :
      (raw signature : List ℕ)
      → split b'.' (encode raw ++ (b'.' ∷ encode signature)) ≡ encode raw ∷ encode signature ∷ []
  unfolding join
  split-token raw signature =
      split-join b'.' (encode raw) (encode signature ∷ [])
        (no_dot _ (encode-IsPlain raw), (no_dot _ (encode-IsPlain signature), tt))

  decode_payload-signed :
      (ring ring' : KeyRing) (payload : Entries) (raw : List ℕ) {token : Text}
      → ((message : Text) → IsDigest (p.hmac_sha256 ring.first_key message))
      → Some (λ key. key ≡ ring.first_key) (ring_keys ring')
      → p.loads raw ≡ some (json_dict payload)
      → All IsByte raw
      → 0 < length raw
      → signed p ring (some raw) ≡ ok token
      → decode_payload p ring' token ≡ ok payload
  unfolding decode_payload
  decode_payload-signed ring ring' payload raw digests known read bytes some_byte h =
      elim (Bool-cases (ltb 8192 (length raw))) [
        | inl long ↦ absurd (let f = rw long at h in cc)
        | inr short ↦
            subst (λ t. open_split p ring' (split b'.' t) ≡ ok payload)
              (ok-injective (rw short at h))
              (rw (split-token raw (p.hmac_sha256 ring.first_key (encode raw))) (
                open_parts-encode ring' ring.first_key raw payload known (digests (encode raw)) read
                  bytes some_byte short))
      ]

  -- What one ring encodes, another one with its first key opens.
  pub decode-encode_payload :
      (ring ring' : KeyRing) (payload : Entries) {token : Text}
      → ((message : Text) → IsDigest (p.hmac_sha256 ring.first_key message))
      → IsReadable p payload
      → Some (λ key. key ≡ ring.first_key) (ring_keys ring')
      → encode_payload p ring payload ≡ ok token
      → decode_payload p ring' token ≡ ok payload
  unfolding encode_payload
  decode-encode_payload ring ring' payload {token} digests readable known h =
      elim (Option-cases (p.dumps (json_dict payload))) [
        | inl unwritten ↦ absurd (let e = rw unwritten at h in cc)
        | inr (raw, written) ↦
            let (read, bytes, some_byte) = readable.reads raw written in
            decode_payload-signed ring ring' payload raw digests known read bytes some_byte
              (rw written at h)
      ]
