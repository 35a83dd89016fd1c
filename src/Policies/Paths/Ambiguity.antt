-- ===== src/Policies/Paths/Ambiguity.antt =====
-- `_reject_ambiguous_input` is stable: what it returns, it returns again.
use yandex_workspace_mcp.Prelude.{
  ℕ, zero, suc, ◌≤◌, ◌≡◌, refl, ap, subst, ◌∙◌, ◌≢◌, true, false, not, ◌⊎◌, inl, inr, Text, List,
  [], ◌∷◌, Option, none, some, arith, ltb, ◌==◌, Bool-cases, any, all, length, text_eq, text_eq_iff,
  text_eq_refl, has_char,
}
use yandex_workspace_mcp.Errors.{ok, >>=-ok, raise_if-ok, ok-injective}
use yandex_workspace_mcp.Python.Utf8.{within, first, Decoder, Step, start, step, lead_byte, advance}
use yandex_workspace_mcp.Python.Unquote.{
  emit, Token, byte, char, tokens, decode_tokens, unquote, is_escape,
}
use yandex_workspace_mcp.Policies.Paths.{
  is_control, escapes, count_char, is_forbidden, decoded_or_fail, reject_ambiguous_input,
}
use yandex_workspace_mcp.Policies.Paths.Decoding.{
  is_plain, IsPlainText, soft_text, unquote-IsPlainText, length-escapes-le,
}

-- A byte that ends no character leaves one under way.
abbrev Busy : Step → Type 0
Busy none = Unit {0}
Busy (some (none, d)) = 1 ≤ d.need
Busy (some (some c, d)) = Unit {0}

advance-Busy : (need c : ℕ) → Busy (advance need c)
unfolding advance
advance-Busy zero c = tt
advance-Busy (suc zero) c = tt
advance-Busy (suc (suc n)) c = omega arith

lead_byte-Busy : (b : ℕ) → Busy (first (lead_byte b))
unfolding lead_byte
lead_byte-Busy b = ground arith

step-Busy : (d : Decoder) (b : ℕ) → Busy (step d b)
unfolding step
step-Busy d b = elim (Bool-cases (d.need == 0)) [
  | inl idle ↦ elim (Bool-cases (ltb b 0x80)) [
    | inl ascii ↦ rw (idle, ascii) tt
    | inr high ↦ rw (idle, high) (lead_byte-Busy b)
  ]
  | inr busy ↦ elim (Bool-cases (within d.lo d.hi b)) [
    | inl inside ↦ rw (busy, inside) (advance-Busy d.need _)
    | inr outside ↦ rw (busy, outside) tt
  ]
]

next_nonempty :
    (k : Decoder → Option Text)
    → ((d : Decoder) → 1 ≤ d.need → k d ≢ some [])
    → (r : Step) → Busy r
    → elim r [ none ↦ none | some (c, d) ↦ emit c (k d) ] ≢ some []
next_nonempty k h none b = λ e. cc
next_nonempty k h (some (none, d)) b = λ e. h d b (ground arith)
next_nonempty k h (some (some c, d)) b = λ e. ground arith

-- Only nothing decodes to nothing.
decode_tokens_nonempty :
    (d : Decoder) (ts : List Token) → (1 ≤ d.need) ⊎ (ts ≢ []) → decode_tokens d ts ≢ some []
unfolding decode_tokens
decode_tokens_nonempty d [] (inl h) = λ e. ground arith
decode_tokens_nonempty d [] (inr h) = λ e. h refl
decode_tokens_nonempty d (byte b ∷ ts) h =
    next_nonempty (λ d'. decode_tokens d' ts) (λ d' busy. decode_tokens_nonempty d' ts (inl busy))
      (step d b) (step-Busy d b)
decode_tokens_nonempty d (char c ∷ ts) h = λ e. ground arith

tokens_nonempty : (s : Text) → s ≢ [] → tokens s ≢ []
unfolding tokens
tokens_nonempty [] h = λ e. h refl
tokens_nonempty (c ∷ []) h = λ e. cc
tokens_nonempty (c ∷ h ∷ []) k = λ e. cc
tokens_nonempty (c ∷ h ∷ l ∷ s) k = elim (Bool-cases (is_escape c h l)) [
  | inl hit ↦ rw hit (λ e. cc)
  | inr miss ↦ rw miss (λ e. cc)
]

unquote_nonempty : (s : Text) → s ≢ [] → unquote s ≢ some []
unfolding unquote
unquote_nonempty s h = elim (Bool-cases (has_char b'%' s)) [
  | inl escaped ↦ rw escaped (decode_tokens_nonempty start (tokens s) (inr (tokens_nonempty s h)))
  | inr bare ↦ rw bare (λ e. h (ground arith))
]

decoded_or_fail-eq-ok : (o : Option Text) {s : Text} → decoded_or_fail o ≡ ok s → o ≡ some s
decoded_or_fail-eq-ok none h = cc
decoded_or_fail-eq-ok (some t) h = cc

nonempty-text_eq : (s : Text) → s ≢ [] → text_eq s [] ≡ false
nonempty-text_eq s h = ground (arith, text_eq_iff s [])

-- What the tests say of a plain text.
plain_flags :
    (s : Text)
    → all is_plain s ≡ true
    → (any is_control s ≡ false)
      × (has_char b'\\' s ≡ false)
      × (has_char b'%' s ≡ false)
      × (count_char b'%' s ≡ 0)
unfolding is_plain has_char count_char
plain_flags [] h = (refl, refl, refl, refl)
plain_flags (c ∷ s) h = ground (arith, plain_flags s)

length-zero {ℓ} : {A : Type ℓ} (xs : List A) → length xs ≤ 0 → xs ≡ []
length-zero [] h = refl
length-zero (x ∷ xs) h = absurd (omega arith)

escapes-plain : (s : Text) → all is_plain s ≡ true → escapes s ≡ []
escapes-plain s h =
    length-zero (escapes s)
      (subst (λ n. length (escapes s) ≤ n) (plain_flags s h).3 (length-escapes-le s))

module _ (nfkc : Text → Text) where
  -- What a returned text satisfies.
  pub record IsDecoded (d : Text) : Type 0 where
    pub nonempty : d ≢ []
    pub plain : all is_plain d ≡ true
    pub normal : nfkc d ≡ d

  pub reject_ambiguous_input-IsDecoded :
      (path : Text) {d : Text} → reject_ambiguous_input nfkc path ≡ ok d → IsDecoded d
  unfolding reject_ambiguous_input
  reject_ambiguous_input-IsDecoded path {d} h0 =
      let (filled, h1) = raise_if-ok (text_eq path []) _ _ h0 in
      let (no_control, h2) = raise_if-ok (any is_control path) _ _ h1 in
      let (no_backslash, h3) = raise_if-ok (has_char b'\\' path) _ _ h2 in
      let (paired, h4) = raise_if-ok (not (count_char b'%' path == length (escapes path))) _ _ h3 in
      let (allowed, h5) = raise_if-ok (any is_forbidden (escapes path)) _ _ h4 in
      let (decoded, unquoted, h6) = >>=-ok (decoded_or_fail (unquote path)) _ h5 in
      let (stable, h7) = raise_if-ok (not (text_eq (nfkc decoded) decoded)) _ _ h6 in
      let found = decoded_or_fail-eq-ok (unquote path) unquoted in
      let soft = soft_text path no_control no_backslash in
      let clean = unquote-IsPlainText path soft allowed (ground arith) in
      subst IsDecoded (ok-injective h7) (record {
        nonempty = λ e.
            unquote_nonempty path (λ p. ground (arith, text_eq_iff path [])) (found ∙ ap some e);
        plain = subst IsPlainText found clean;
        normal = (text_eq_iff (nfkc decoded) decoded).0 (ground arith);
      })

  -- Such a text passes every test, and has nothing to decode.
  pub IsDecoded-reject_ambiguous_input :
      (d : Text) → IsDecoded d → reject_ambiguous_input nfkc d ≡ ok d
  unfolding reject_ambiguous_input unquote
  IsDecoded-reject_ambiguous_input d v =
      let flags = plain_flags d v.plain in
      rw (
        nonempty-text_eq d v.nonempty,
        flags.0,
        flags.1,
        flags.2,
        escapes-plain d v.plain,
        flags.3,
        v.normal,
        text_eq_refl d,
      )

  -- A text that `_reject_ambiguous_input` returns, it returns again unchanged: no second pass over
  -- a decoded path decodes or refuses anything.
  pub reject_ambiguous_input_idem :
      (path : Text) {d : Text}
      → reject_ambiguous_input nfkc path ≡ ok d
      → reject_ambiguous_input nfkc d ≡ ok d
  reject_ambiguous_input_idem path {d} h =
      IsDecoded-reject_ambiguous_input d (reject_ambiguous_input-IsDecoded path h)
