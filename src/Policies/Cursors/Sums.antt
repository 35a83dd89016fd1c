-- ===== src/Policies/Cursors/Sums.antt =====
-- Hash functions that add up what they hash, for the tests of policies/cursors.py.
use yandex_workspace_mcp.Prelude.{
  ℕ, zero, suc, ◌+◌, ◌%◌, ◌<◌, ◌≡◌, refl, true, Text, List, [], ◌∷◌, Option, ltb, ◌==◌, arith, All,
  all, replicate,
}
use yandex_workspace_mcp.Python.Base64.{IsByte}
use yandex_workspace_mcp.Models.Wiki.Json.{Json}
use yandex_workspace_mcp.Policies.Cursors.{Primitives}
use yandex_workspace_mcp.Policies.Cursors.Tokens.{IsDigest}

abbrev sum : List ℕ → ℕ
sum [] = 0
sum (a ∷ bytes) = a + sum bytes

abbrev pub mac : List ℕ → List ℕ → List ℕ
mac key message = replicate 32 ((sum key + sum message) % 256)

abbrev pub hex : List ℕ → Text
hex message = (b'a' + sum message % 16) ∷ []

All-replicate : (n b : ℕ) → b < 256 → All IsByte (replicate n b)
All-replicate zero b h = tt
All-replicate (suc n) b h = (h, All-replicate n b h)

pub mac-IsDigest : (key message : List ℕ) → IsDigest (mac key message)
mac-IsDigest key message = record {
  has_length = refl;
  are_bytes = All-replicate 32 ((sum key + sum message) % 256) (omega arith);
}

pub hex_ascii : (message : List ℕ) → all (λ c. ltb c 128) (hex message) ≡ true
hex_ascii message = ground arith

abbrev pub primitives : (Json → Option (List ℕ)) → (List ℕ → Option Json) → Primitives
primitives dumps loads = record {
  hmac_sha256 = mac;
  sha256_hex = hex;
  utf8 = λ t. t;
  dumps = dumps;
  loads = loads;
  nfkc = λ t. t;
  casefold = λ t. t;
  is_space = λ c. c == b' ';
}
