-- ===== src/Python/Unquote.antt =====
-- `urllib.parse.unquote(string, errors="strict")`.
use yandex_workspace_mcp.Prelude.{
  ℕ, ◌+◌, ◌-◌, ◌*◌, Bool, ◌&&◌, ◌||◌, Text, List, [], ◌∷◌, Option, none, some, ltb, leb, ◌==◌,
  if◌then◌else◌, has_char,
}
use yandex_workspace_mcp.Python.Utf8.{Decoder, start, step}

abbrev pub within : ℕ → ℕ → ℕ → Bool
within lo hi c = leb lo c && leb c hi

-- [0-9A-Fa-f]
unfoldable pub is_hex : ℕ → Bool
is_hex c = within b'0' b'9' c || (within b'A' b'F' c || within b'a' b'f' c)

unfoldable pub hex_value : ℕ → ℕ
hex_value c = if within b'0' b'9' c then c - b'0' else if within b'A' b'F' c then c - 55 else c - 87

unfoldable pub is_escape : ℕ → ℕ → ℕ → Bool
unfolding is_hex
is_escape c h l = c == b'%' && (is_hex h && is_hex l)

unfoldable pub escape_byte : ℕ → ℕ → ℕ
unfolding hex_value
escape_byte h l = hex_value h * 16 + hex_value l

-- What the ASCII runs of the text hold as bytes, and the characters between the runs. A `%` that
-- two hexadecimal digits do not follow stands for itself.
pub data Token : Type 0 where
  byte : ℕ → Token
  char : ℕ → Token

unfoldable pub token : ℕ → Token
token c = if ltb c 0x80 then byte c else char c

unfoldable pub tokens : Text → List Token
unfolding is_escape escape_byte token
tokens [] = []
tokens (c ∷ []) = token c ∷ []
tokens (c ∷ h ∷ []) = token c ∷ token h ∷ []
tokens (c ∷ h ∷ l ∷ s) =
    let decoded = byte (escape_byte h l) ∷ tokens s in
    let kept = token c ∷ tokens (h ∷ l ∷ s) in if is_escape c h l then decoded else kept

abbrev pub emit : Option ℕ → Option Text → Option Text
emit c none = none
emit none (some s) = some s
emit (some c) (some s) = some (c ∷ s)

-- Each run is decoded by itself: a character in the middle of a sequence of bytes, or the end of
-- the text there, is a `UnicodeDecodeError`, which is `none`.
unfoldable pub decode_tokens : Decoder → List Token → Option Text
unfolding step
decode_tokens d [] = if d.need == 0 then some [] else none
decode_tokens d (byte b ∷ ts) = elim (step d b) [
  | none ↦ none
  | some (c, d') ↦ emit c (decode_tokens d' ts)
]
decode_tokens d (char c ∷ ts) =
    let rest = decode_tokens start ts in if d.need == 0 then emit (some c) rest else none

unfoldable pub unquote : Text → Option Text
unfolding tokens decode_tokens
unquote s = if has_char b'%' s then decode_tokens start (tokens s) else some s
