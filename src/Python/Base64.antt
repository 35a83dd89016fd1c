-- ===== src/Python/Base64.antt =====
-- What the program uses of `base64`: the URL-safe alphabet without padding. The encoder is
-- `urlsafe_b64encode` with the padding stripped; the decoder is `urlsafe_b64decode` of a text over the
-- alphabet with the padding put back, which ignores the bits that a last group leaves over.
use yandex_workspace_mcp.Prelude.{
  ℕ, zero, suc, ◌+◌, ◌-◌, ◌*◌, ◌/◌, ◌%◌, ◌<◌, ◌≡◌, refl, ap, Bool, true, false, ◌&&◌, Text, List,
  [], ◌∷◌, Option, none, some, ltb, leb, ◌==◌, ==_iff, if◌then◌else◌, All, arith, Bool-cases, inl,
  inr, map,
}

-- The character of a value below 64, and the value of a character of the alphabet.
unfoldable pub sextet_char : ℕ → ℕ
sextet_char v =
    if ltb v 26
    then b'A' + v
    else if ltb v 52
    then b'a' + (v - 26)
    else if ltb v 62
    then b'0' + (v - 52)
    else if v == 62
    then b'-'
    else b'_'

unfoldable pub sextet_value : ℕ → Option ℕ
sextet_value c =
    if leb b'A' c && leb c b'Z'
    then some (c - b'A')
    else if leb b'a' c && leb c b'z'
    then some (c - b'a' + 26)
    else if leb b'0' c && leb c b'9'
    then some (c - b'0' + 52)
    else if c == b'-'
    then some 62
    else if c == b'_'
    then some 63
    else none

unfoldable pub encode : List ℕ → Text
unfolding sextet_char
encode [] = []
encode (a ∷ []) = sextet_char (a / 4) ∷ sextet_char (a % 4 * 16) ∷ []
encode (a ∷ (b ∷ [])) =
    sextet_char (a / 4) ∷ sextet_char (a % 4 * 16 + b / 16) ∷ sextet_char (b % 16 * 4) ∷ []
encode (a ∷ (b ∷ (c ∷ bytes))) =
    sextet_char (a / 4)
    ∷ sextet_char (a % 4 * 16 + b / 16)
    ∷ sextet_char (b % 16 * 4 + c / 64)
    ∷ sextet_char (c % 64)
    ∷ encode bytes

-- The values of the characters, if all of them are of the alphabet.
abbrev pub cons_value : Option ℕ → Option (List ℕ) → Option (List ℕ)
cons_value none rest = none
cons_value (some v) none = none
cons_value (some v) (some values) = some (v ∷ values)

unfoldable pub sextets : Text → Option (List ℕ)
unfolding sextet_value
sextets [] = some []
sextets (c ∷ s) = cons_value (sextet_value c) (sextets s)

-- The bytes of the values; a single value left over is an error.
abbrev pub cons_bytes : List ℕ → Option (List ℕ) → Option (List ℕ)
cons_bytes group none = none
cons_bytes [] (some bytes) = some bytes
cons_bytes (a ∷ group) (some bytes) = cons_value (some a) (cons_bytes group (some bytes))

unfoldable pub bytes_of : List ℕ → Option (List ℕ)
bytes_of [] = some []
bytes_of (p ∷ []) = none
bytes_of (p ∷ (q ∷ [])) = some ((p * 4 + q / 16) ∷ [])
bytes_of (p ∷ (q ∷ (r ∷ []))) = some ((p * 4 + q / 16) ∷ (q % 16 * 16 + r / 4) ∷ [])
bytes_of (p ∷ (q ∷ (r ∷ (t ∷ values)))) =
    cons_value (some (p * 4 + q / 16)) (
      cons_value (some (q % 16 * 16 + r / 4))
        (cons_value (some (r % 4 * 64 + t)) (bytes_of values)))

abbrev pub if_sextets : Option (List ℕ) → Option (List ℕ)
if_sextets none = none
if_sextets (some values) = bytes_of values

unfoldable pub decode : Text → Option (List ℕ)
unfolding sextets bytes_of
decode s = if_sextets (sextets s)

-- Every value has its character.
values_back : ℕ → Bool
unfolding sextet_char sextet_value
values_back zero = true
values_back (suc n) =
    (elim (sextet_value (sextet_char n)) [ some v ↦ v == n | none ↦ false ]) && values_back n

all_back : values_back 64 ≡ true
unfolding values_back
all_back = refl

one_back : (o : Option ℕ) (n : ℕ) → (elim o [ some v ↦ v == n | none ↦ false ]) ≡ true → o ≡ some n
one_back none n h = cc
one_back (some v) n h = ap some ((==_iff v n).0 h)

from_values : (k n : ℕ) → values_back k ≡ true → n < k → sextet_value (sextet_char n) ≡ some n
unfolding values_back
from_values zero n h below = elim below [ ]
from_values (suc k) n h below = elim (Bool-cases (n == k)) [
  | inl last ↦
      one_back (sextet_value (sextet_char n)) n (rw ((==_iff n k).0 last) (ground (arith, h)))
  | inr other ↦ from_values k n (ground (arith, h)) (ground (arith, other))
]

value_back : (n : ℕ) → n < 64 → sextet_value (sextet_char n) ≡ some n
value_back n h = from_values 64 n all_back h

-- The values of the characters that stand for the bytes.
values_of : List ℕ → List ℕ
values_of [] = []
values_of (a ∷ []) = a / 4 ∷ (a % 4 * 16) ∷ []
values_of (a ∷ (b ∷ [])) = a / 4 ∷ (a % 4 * 16 + b / 16) ∷ (b % 16 * 4) ∷ []
values_of (a ∷ (b ∷ (c ∷ bytes))) =
    a / 4 ∷ (a % 4 * 16 + b / 16) ∷ (b % 16 * 4 + c / 64) ∷ c % 64 ∷ values_of bytes

abbrev pub IsByte : ℕ → Type 0
IsByte b = b < 256

sextets-encode :
    (bytes : List ℕ) → All IsByte bytes → sextets (encode bytes) ≡ some (values_of bytes)
unfolding sextets encode values_of
sextets-encode [] h = refl
sextets-encode (a ∷ []) h =
    rw (value_back (a / 4) (omega (arith, h.0)), value_back (a % 4 * 16) (omega arith)) refl
sextets-encode (a ∷ (b ∷ [])) h =
    rw
      (
        value_back (a / 4) (omega (arith, h.0)),
        value_back (a % 4 * 16 + b / 16) (omega (arith, h.1.0)),
        value_back (b % 16 * 4) (omega arith),
      )
      refl
sextets-encode (a ∷ (b ∷ (c ∷ bytes))) h =
    rw
      (
        value_back (a / 4) (omega (arith, h.0)),
        value_back (a % 4 * 16 + b / 16) (omega (arith, h.1.0)),
        value_back (b % 16 * 4 + c / 64) (omega (arith, h.1.1.0)),
        value_back (c % 64) (omega arith),
        sextets-encode bytes h.1.1.1,
      )
      refl

bytes_of-values : (bytes : List ℕ) → All IsByte bytes → bytes_of (values_of bytes) ≡ some bytes
unfolding bytes_of values_of
bytes_of-values [] h = refl
bytes_of-values (a ∷ []) h = ap (λ n. some (n ∷ [])) (omega (arith, h.0))
bytes_of-values (a ∷ (b ∷ [])) h = two (omega (arith, h.0, h.1.0)) (omega (arith, h.0, h.1.0))
  where
    two : {x y z w : ℕ} → x ≡ z → y ≡ w → some (x ∷ y ∷ []) ≡ some (z ∷ w ∷ [])
    two e f = rw (e, f) refl
bytes_of-values (a ∷ (b ∷ (c ∷ bytes))) h =
    rw (bytes_of-values bytes h.1.1.1)
      (three (omega (arith, h.0, h.1.0)) (omega (arith, h.1.0, h.1.1.0)) (omega (arith, h.1.1.0)))
  where
    three :
        {x y z u v w : ℕ}
        → x ≡ u
        → y ≡ v
        → z ≡ w
        → some (x ∷ y ∷ z ∷ bytes) ≡ some (u ∷ v ∷ w ∷ bytes)
    three e f g = rw (e, f, g) refl

-- What was encoded is decoded.
pub decode-encode : (bytes : List ℕ) → All IsByte bytes → decode (encode bytes) ≡ some bytes
unfolding decode
decode-encode bytes h = rw (sextets-encode bytes h) (bytes_of-values bytes h)

-- What a text of the alphabet looks like: it is ASCII and has no dot.
abbrev pub IsPlain : ℕ → Type 0
IsPlain c = (c < 128) × ((c == b'.') ≡ false)

sextet_char-IsPlain : (v : ℕ) → IsPlain (sextet_char v)
unfolding sextet_char
sextet_char-IsPlain v = ground arith

encode-map : (bytes : List ℕ) → encode bytes ≡ map sextet_char (values_of bytes)
unfolding encode values_of
encode-map [] = refl
encode-map (a ∷ []) = refl
encode-map (a ∷ (b ∷ [])) = refl
encode-map (a ∷ (b ∷ (c ∷ bytes))) = rw (encode-map bytes) refl

chars-IsPlain : (values : List ℕ) → All IsPlain (map sextet_char values)
chars-IsPlain [] = tt
chars-IsPlain (v ∷ values) = (sextet_char-IsPlain v, chars-IsPlain values)

pub encode-IsPlain : (bytes : List ℕ) → All IsPlain (encode bytes)
encode-IsPlain bytes = rw (encode-map bytes) (chars-IsPlain (values_of bytes))
