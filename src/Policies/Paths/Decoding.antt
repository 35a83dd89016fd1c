-- ===== src/Policies/Paths/Decoding.antt =====
-- What `_reject_ambiguous_input` lets through has nothing left to decode.
use yandex_workspace_mcp.Prelude.{
  ℕ, zero, suc, ◌+◌, ◌-◌, ◌*◌, ◌≤◌, ◌≡◌, refl, Bool, true, false, not, ◌&&◌, inl, inr, Text, List,
  [], ◌∷◌, Option, none, some, arith, ltb, ◌==◌, Bool-cases, if◌then◌else◌, any, all, All, length,
  has_char,
}
use yandex_workspace_mcp.Python.Utf8.{within, first, Decoder, Step, start, step, lead_byte, advance}
use yandex_workspace_mcp.Python.Unquote.{
  emit, Token, byte, char, token, tokens, decode_tokens, unquote, is_hex, is_escape, escape_byte,
}
use yandex_workspace_mcp.Policies.Paths.{is_control, escapes, count_char, is_forbidden}

-- Neither a control character nor one that a second pass would treat in its own way.
unfoldable pub is_plain : ℕ → Bool
unfolding is_control
is_plain c = not (is_control c) && (not (c == b'\\') && not (c == b'%'))

-- The character under way will be 0x80 or more, whatever bytes are to come.
abbrev Grows : ℕ → ℕ → ℕ → Type 0
Grows zero lo bits = Unit {0}
Grows (suc zero) lo bits = (128 ≤ lo) × (128 ≤ bits * 64 + (lo - 128))
Grows (suc (suc zero)) lo bits = (128 ≤ lo) × (2 ≤ bits * 64 + (lo - 128))
Grows (suc (suc (suc n))) lo bits = (128 ≤ lo) × (1 ≤ bits * 64 + (lo - 128))

abbrev Good : Step → Type 0
Good none = Unit {0}
Good (some (none, d)) = Grows d.need d.lo d.bits
Good (some (some c, d)) = (is_plain c ≡ true) × Grows d.need d.lo d.bits

high-is_plain : (c : ℕ) → 128 ≤ c → is_plain c ≡ true
unfolding is_plain
high-is_plain c h = ground arith

lead_byte-Good : (b : ℕ) → Good (first (lead_byte b))
unfolding lead_byte
lead_byte-Good b = ground arith

advance-Good :
    (need lo bits b : ℕ)
    → Grows need lo bits
    → lo ≤ b
    → Good (advance need (bits * 64 + (b - 0x80)))
unfolding advance
advance-Good zero lo bits b g h = tt
advance-Good (suc zero) lo bits b g h = (high-is_plain _ (omega arith), tt)
advance-Good (suc (suc zero)) lo bits b g h = omega arith
advance-Good (suc (suc (suc zero))) lo bits b g h = omega arith
advance-Good (suc (suc (suc (suc n)))) lo bits b g h = omega arith

step-Good : (d : Decoder) (b : ℕ) → Grows d.need d.lo d.bits → is_plain b ≡ true → Good (step d b)
unfolding step
step-Good d b g p = elim (Bool-cases (d.need == 0)) [
  | inl idle ↦ elim (Bool-cases (ltb b 0x80)) [
    | inl ascii ↦ rw (idle, ascii) (p, tt)
    | inr high ↦ rw (idle, high) (lead_byte-Good b)
  ]
  | inr busy ↦ elim (Bool-cases (within d.lo d.hi b)) [
    | inl inside ↦ rw (busy, inside) (advance-Good d.need d.lo d.bits b g (ground arith))
    | inr outside ↦ rw (busy, outside) tt
  ]
]

abbrev IsPlainToken : Token → Type 0
IsPlainToken (byte b) = is_plain b ≡ true
IsPlainToken (char c) = is_plain c ≡ true

abbrev pub IsPlainText : Option Text → Type 0
IsPlainText none = Unit {0}
IsPlainText (some s) = all is_plain s ≡ true

emit-IsPlainText :
    (c : ℕ) (o : Option Text) → is_plain c ≡ true → IsPlainText o → IsPlainText (emit (some c) o)
emit-IsPlainText c none p h = tt
emit-IsPlainText c (some s) p h = ground arith

emit-none-IsPlainText : (o : Option Text) → IsPlainText o → IsPlainText (emit none o)
emit-none-IsPlainText none h = tt
emit-none-IsPlainText (some s) h = h

next-IsPlainText :
    (k : Decoder → Option Text)
    → ((d : Decoder) → Grows d.need d.lo d.bits → IsPlainText (k d))
    → (r : Step) → Good r
    → IsPlainText (elim r [ none ↦ none | some (c, d) ↦ emit c (k d) ])
next-IsPlainText k h none g = tt
next-IsPlainText k h (some (none, d)) g = emit-none-IsPlainText (k d) (h d g)
next-IsPlainText k h (some (some c, d)) g = emit-IsPlainText c (k d) g.0 (h d g.1)

-- Bytes and characters that are plain decode to plain characters.
decode_tokens-IsPlainText :
    (d : Decoder) (ts : List Token)
    → Grows d.need d.lo d.bits
    → All IsPlainToken ts
    → IsPlainText (decode_tokens d ts)
unfolding decode_tokens
decode_tokens-IsPlainText d [] g h = ground arith
decode_tokens-IsPlainText d (byte b ∷ ts) g h =
    next-IsPlainText (λ d'. decode_tokens d' ts) (λ d' g'. decode_tokens-IsPlainText d' ts g' h.1)
      (step d b) (step-Good d b g h.0)
decode_tokens-IsPlainText d (char c ∷ ts) g h = elim (Bool-cases (d.need == 0)) [
  | inl idle ↦
      rw idle (
        emit-IsPlainText c (decode_tokens start ts) h.0 (decode_tokens-IsPlainText start ts tt h.1))
  | inr busy ↦ rw busy tt
]

-- Neither a control character nor a backslash: what the first tests leave.
pub is_soft : ℕ → Bool
unfolding is_control
is_soft c = not (is_control c) && not (c == b'\\')

module _ (c h l : ℕ) (s : Text) where
  escapes_hit : is_escape c h l ≡ true → escapes (c ∷ h ∷ l ∷ s) ≡ escape_byte h l ∷ escapes s
  unfolding escapes
  escapes_hit hit = rw hit

  escapes_miss : is_escape c h l ≡ false → escapes (c ∷ h ∷ l ∷ s) ≡ escapes (h ∷ l ∷ s)
  unfolding escapes
  escapes_miss miss = rw miss

  tokens_hit : is_escape c h l ≡ true → tokens (c ∷ h ∷ l ∷ s) ≡ byte (escape_byte h l) ∷ tokens s
  unfolding tokens
  tokens_hit hit = rw hit

  tokens_miss : is_escape c h l ≡ false → tokens (c ∷ h ∷ l ∷ s) ≡ token c ∷ tokens (h ∷ l ∷ s)
  unfolding tokens
  tokens_miss miss = rw miss

  -- The two digits of an escape are no `%`.
  count_char_hit : is_escape c h l ≡ true → count_char b'%' (c ∷ h ∷ l ∷ s) ≡ 1 + count_char b'%' s
  unfolding is_escape is_hex count_char
  count_char_hit hit = ground arith

count_char-cons :
    (c : ℕ) (s : Text) → count_char b'%' (c ∷ s) ≡ (if c == b'%' then 1 else 0) + count_char b'%' s
unfolding count_char
count_char-cons c s = refl

pub length-escapes-le : (s : Text) → length (escapes s) ≤ count_char b'%' s
length-escapes-le [] = unfold escapes in omega arith
length-escapes-le (c ∷ []) = unfold escapes in omega arith
length-escapes-le (c ∷ h ∷ []) = unfold escapes in omega arith
length-escapes-le (c ∷ h ∷ l ∷ s) = elim (Bool-cases (is_escape c h l)) [
  | inl hit ↦
      rw (escapes_hit c h l s hit, count_char_hit c h l s hit) (omega (arith, length-escapes-le s))
  | inr miss ↦
      rw (escapes_miss c h l s miss, count_char-cons c (h ∷ l ∷ s))
        (omega (arith, length-escapes-le (h ∷ l ∷ s)))
]

token-IsPlainToken : (c : ℕ) → is_plain c ≡ true → IsPlainToken (token c)
unfolding token
token-IsPlainToken c h = ground arith

escape_byte-is_plain : (b : ℕ) → is_forbidden b ≡ false → is_plain b ≡ true
unfolding is_forbidden is_plain has_char
escape_byte-is_plain b h = ground arith

-- Text whose every `%` starts an escape, of a byte that is allowed.
tokens-IsPlainToken :
    (s : Text)
    → all is_soft s ≡ true
    → any is_forbidden (escapes s) ≡ false
    → count_char b'%' s ≡ length (escapes s)
    → All IsPlainToken (tokens s)
tokens-IsPlainToken [] soft allowed paired = unfold tokens in tt
tokens-IsPlainToken (c ∷ []) soft allowed paired =
    unfold tokens in
    (token-IsPlainToken c (unfold escapes is_soft count_char is_plain in ground arith), tt)
tokens-IsPlainToken (c ∷ h ∷ []) soft allowed paired =
    unfold tokens in
    (
      token-IsPlainToken c (unfold escapes is_soft count_char is_plain in ground arith),
      (token-IsPlainToken h (unfold escapes is_soft count_char is_plain in ground arith), tt),
    )
tokens-IsPlainToken (c ∷ h ∷ l ∷ s) soft allowed paired = elim (Bool-cases (is_escape c h l)) [
  | inl hit ↦
      let kept = rw (escapes_hit c h l s hit) at allowed in
      let even = rw (escapes_hit c h l s hit, count_char_hit c h l s hit) at paired in
      rw (tokens_hit c h l s hit) (
        escape_byte-is_plain (escape_byte h l) (ground arith),
        tokens-IsPlainToken s (ground arith) (ground arith) (ground arith),
      )
  | inr miss ↦
      let kept = rw (escapes_miss c h l s miss) at allowed in
      let even = rw (escapes_miss c h l s miss, count_char-cons c (h ∷ l ∷ s)) at paired in
      rw (tokens_miss c h l s miss) (
        token-IsPlainToken c
            (unfold is_soft is_plain in ground (arith, length-escapes-le (h ∷ l ∷ s))),
        tokens-IsPlainToken (h ∷ l ∷ s) (ground arith) kept
            (ground (arith, length-escapes-le (h ∷ l ∷ s))),
      )
]

-- What the tests of the raw text leave.
pub soft_text :
    (s : Text) → any is_control s ≡ false → has_char b'\\' s ≡ false → all is_soft s ≡ true
unfolding is_soft has_char
soft_text [] h k = refl
soft_text (c ∷ s) h k = ground (arith, soft_text s)

-- Without a `%`, there is nothing to decode.
plain_text : (s : Text) → all is_soft s ≡ true → has_char b'%' s ≡ false → all is_plain s ≡ true
unfolding is_soft is_plain has_char
plain_text [] h k = refl
plain_text (c ∷ s) h k = ground (arith, plain_text s)

pub unquote-IsPlainText :
    (s : Text)
    → all is_soft s ≡ true
    → any is_forbidden (escapes s) ≡ false
    → count_char b'%' s ≡ length (escapes s)
    → IsPlainText (unquote s)
unfolding unquote
unquote-IsPlainText s soft allowed paired = elim (Bool-cases (has_char b'%' s)) [
  | inl escaped ↦
      rw escaped
        (decode_tokens-IsPlainText start (tokens s) tt (tokens-IsPlainToken s soft allowed paired))
  | inr bare ↦ rw bare (plain_text s soft bare)
]
