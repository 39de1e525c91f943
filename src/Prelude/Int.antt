-- ===== src/Prelude/Int.antt =====
-- Signed integers over the native numbers: Go's `int`, within its range.
use Prim.Native.Nat.{ℕ, zero, suc}
use mathlib.Core.Path.{◌≡◌}
use mathlib.Core.Logic.{◌↔◌}
use mathlib.Core.Bool.{Bool, true, false}
use native.Mathlib.Omega.{arith}
use narou_viewer.Prelude.Tests.{leb, ◌==◌, if◌then◌else◌}

-- `negsuc n` is -(n + 1).
pub data ℤ : Type 0 where
  pos : ℕ → ℤ
  negsuc : ℕ → ℤ

abbrev pub int_eq : ℤ → ℤ → Bool
int_eq (pos a) (pos b) = a == b
int_eq (pos a) (negsuc b) = false
int_eq (negsuc a) (pos b) = false
int_eq (negsuc a) (negsuc b) = a == b

pub int_eq_iff : (a b : ℤ) → (int_eq a b ≡ true) ↔ (a ≡ b)
int_eq_iff (pos a) (pos b) = ground arith
int_eq_iff (pos a) (negsuc b) = ground arith
int_eq_iff (negsuc a) (pos b) = ground arith
int_eq_iff (negsuc a) (negsuc b) = ground arith

abbrev pub is_pos : ℤ → Bool
is_pos (pos zero) = false
is_pos (pos (suc n)) = true
is_pos (negsuc n) = false

abbrev pub is_neg : ℤ → Bool
is_neg (pos n) = false
is_neg (negsuc n) = true

-- a ≤ b.
abbrev pub int_le : ℤ → ℤ → Bool
int_le (pos a) (pos b) = leb a b
int_le (pos a) (negsuc b) = false
int_le (negsuc a) (pos b) = true
int_le (negsuc a) (negsuc b) = leb b a

pub int_eq_refl : (a : ℤ) → int_eq a a ≡ true
int_eq_refl (pos n) = ground arith
int_eq_refl (negsuc n) = ground arith

pub int_eq_comm : (a b : ℤ) → int_eq a b ≡ int_eq b a
int_eq_comm a b = ground (arith, int_eq_iff a b, int_eq_iff b a)

abbrev pub int_max : ℤ → ℤ → ℤ
int_max a b = if int_le a b then b else a

-- n + 1.
abbrev pub int_suc : ℤ → ℤ
int_suc (pos n) = pos (suc n)
int_suc (negsuc zero) = pos 0
int_suc (negsuc (suc n)) = negsuc n
