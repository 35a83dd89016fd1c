-- ===== src/Python/Utf8.antt =====
-- `bytes.decode("utf-8", errors="strict")`: the well-formed byte sequences of the Unicode standard,
-- which leave out overlong forms, surrogates and what lies above U+10FFFF.
use yandex_workspace_mcp.Prelude.{
  ℕ, zero, suc, ◌+◌, ◌-◌, ◌*◌, Bool, ◌&&◌, Option, none, some, ltb, leb, ◌==◌, if◌then◌else◌,
}

abbrev pub within : ℕ → ℕ → ℕ → Bool
within lo hi b = leb lo b && leb b hi

-- The bytes of a character that are still to come, the range of the next one, and the bits so far.
pub record Decoder : Type 0 where
  pub need : ℕ
  pub lo : ℕ
  pub hi : ℕ
  pub bits : ℕ

abbrev pub start : Decoder
start = record { need = 0; lo = 0x80; hi = 0xbf; bits = 0 }

-- A first byte of 0x80 or more.
unfoldable pub lead_byte : ℕ → Option Decoder
lead_byte b =
    if within 0xc2 0xdf b
    then some (record { need = 1; lo = 0x80; hi = 0xbf; bits = b - 0xc0 })
    else if within 0xe0 0xef b
    then some (record {
      need = 2;
      lo = if b == 0xe0 then 0xa0 else 0x80;
      hi = if b == 0xed then 0x9f else 0xbf;
      bits = b - 0xe0;
    })
    else if within 0xf0 0xf4 b
    then some (record {
      need = 3;
      lo = if b == 0xf0 then 0x90 else 0x80;
      hi = if b == 0xf4 then 0x8f else 0xbf;
      bits = b - 0xf0;
    })
    else none

-- One byte: the character that it ends, if any, and the next state.
abbrev pub Step : Type 0
Step = Option (Option ℕ × Decoder)

abbrev pub first : Option Decoder → Step
first none = none
first (some d) = some (none, d)

unfoldable pub advance : ℕ → ℕ → Step
advance zero c = none
advance (suc zero) c = some (some c, start)
advance (suc (suc n)) c = some (none, record { need = suc n; lo = 0x80; hi = 0xbf; bits = c })

unfoldable pub step : Decoder → ℕ → Step
unfolding lead_byte advance
step d b =
    if d.need == 0
    then (if ltb b 0x80 then some (some b, start) else first (lead_byte b))
    else if within d.lo d.hi b
    then advance d.need (d.bits * 64 + (b - 0x80))
    else none
