-- ===== src/Prelude/Int.antt =====
-- `int64_t` and `int` values that may be negative: the program only compares them here.
use Prim.Native.Nat.{ℕ}
use mathlib.Core.Path.{◌≡◌}
use mathlib.Core.Bool.{Bool, true, false}
use native.Mathlib.Omega.{arith}
use nova_chat.Prelude.Tests.{ltb, ◌==◌}

-- `negsuc n` is -(n + 1).
pub data ℤ : Type 0 where
  pos : ℕ → ℤ
  negsuc : ℕ → ℤ

-- a < b
abbrev pub lt_int : ℤ → ℤ → Bool
lt_int (pos a) (pos b) = ltb a b
lt_int (pos a) (negsuc b) = false
lt_int (negsuc a) (pos b) = true
lt_int (negsuc a) (negsuc b) = ltb b a

-- a == b
abbrev pub eq_int : ℤ → ℤ → Bool
eq_int (pos a) (pos b) = a == b
eq_int (pos a) (negsuc b) = false
eq_int (negsuc a) (pos b) = false
eq_int (negsuc a) (negsuc b) = a == b

pub lt_int_trans : (a b c : ℤ) → lt_int b a ≡ false → lt_int c b ≡ false → lt_int c a ≡ false
lt_int_trans (pos a) (pos b) (pos c) h k = ground arith
lt_int_trans a b c h k = ground arith

pub lt_int_asym : (a b : ℤ) → lt_int a b ≡ true → lt_int b a ≡ false
lt_int_asym (pos a) (pos b) h = ground arith
lt_int_asym a b h = ground arith
