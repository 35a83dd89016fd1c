-- ===== src/Prelude/Int.antt =====
-- Python's `int`, where a number may be negative.
use yandex_workspace_mcp.Prelude.Tests.{◌==◌, ltb}
use Prim.Native.Nat.{ℕ}
use mathlib.Core.Path.{◌≡◌}
use mathlib.Core.Bool.{Bool, true, false}
use native.Mathlib.Omega.{arith}

-- `negsuc n` is -(n + 1).
pub data ℤ : Type 0 where
  pos : ℕ → ℤ
  negsuc : ℕ → ℤ

-- i == j
unfoldable pub int_eq : ℤ → ℤ → Bool
int_eq (pos n) (pos m) = n == m
int_eq (negsuc n) (negsuc m) = n == m
int_eq _ _ = false

-- i > 0
unfoldable pub is_positive : ℤ → Bool
is_positive (pos n) = ltb 0 n
is_positive (negsuc n) = false

pub int_eq_sound : (i j : ℤ) → int_eq i j ≡ true → i ≡ j
unfolding int_eq
int_eq_sound (pos n) (pos m) h = ground arith
int_eq_sound (pos n) (negsuc m) h = ground arith
int_eq_sound (negsuc n) (pos m) h = ground arith
int_eq_sound (negsuc n) (negsuc m) h = ground arith

pub int_eq_refl : (i : ℤ) → int_eq i i ≡ true
unfolding int_eq
int_eq_refl (pos n) = ground arith
int_eq_refl (negsuc n) = ground arith
