-- ===== src/Base/Int.antt =====
-- C's `int` where the code uses negative values: lengths, return codes and -errno.
use Prim.Native.Nat.{ℕ, zero, suc}
use mathlib.Core.Bool.{Bool, false}
use udpgrm.Base.Tests.{ltb, ◌==◌}

-- `negsuc n` is -(n + 1).
pub data ℤ : Type 0 where
  pos : ℕ → ℤ
  negsuc : ℕ → ℤ

-- -n
abbrev pub neg : ℕ → ℤ
neg zero = pos 0
neg (suc n) = negsuc n

abbrev pub minus_one : ℤ
minus_one = negsuc 0

abbrev pub eqℤ : ℤ → ℤ → Bool
eqℤ (pos a) (pos b) = a == b
eqℤ (pos a) (negsuc b) = false
eqℤ (negsuc a) (pos b) = false
eqℤ (negsuc a) (negsuc b) = a == b

-- a < x for a number that is not negative
abbrev pub above : ℕ → ℤ → Bool
above a (pos b) = ltb a b
above a (negsuc b) = false
