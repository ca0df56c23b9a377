-- ===== src/Prelude/Ints.antt =====
-- Go's `int` where it may be negative: an integer without a bound.
use Prim.Native.Nat.{ℕ, suc, ◌+◌, ◌-◌}
use mathlib.Core.Path.{◌≡◌}
use mathlib.Core.Bool.{Bool, true, false}
use native.Mathlib.Omega.{arith}
use godiam.Prelude.Tests.{ltb, leb, ◌==◌, if◌then◌else◌}

pub data ℤ : Type 0 where
  pos negsuc : ℕ → ℤ

-- `a - b` of two numbers that are not negative.
abbrev pub minus : ℕ → ℕ → ℤ
minus a b = if leb b a then pos (a - b) else negsuc (b - a - 1)

unfoldable pub ltz : ℤ → ℤ → Bool
ltz (pos a) (pos b) = ltb a b
ltz (pos a) (negsuc b) = false
ltz (negsuc a) (pos b) = true
ltz (negsuc a) (negsuc b) = ltb b a

unfoldable pub eqz : ℤ → ℤ → Bool
eqz (pos a) (pos b) = a == b
eqz (pos a) (negsuc b) = false
eqz (negsuc a) (pos b) = false
eqz (negsuc a) (negsuc b) = a == b

pub ltz_asym : (a b : ℤ) → ltz a b ≡ true → ltz b a ≡ false
unfolding ltz
ltz_asym (pos a) (pos b) h = ground arith
ltz_asym (pos a) (negsuc b) h = absurd (ground arith)
ltz_asym (negsuc a) (pos b) h = ground arith
ltz_asym (negsuc a) (negsuc b) h = ground arith

-- `a ≤ b` and `b ≤ c`, each said by the order's test the other way round.
pub ltz_trans : (a b c : ℤ) → ltz b a ≡ false → ltz c b ≡ false → ltz c a ≡ false
unfolding ltz
ltz_trans (pos a) (pos b) (pos c) h k = ground arith
ltz_trans (pos a) (pos b) (negsuc c) h k = absurd (ground arith)
ltz_trans (pos a) (negsuc b) c h k = absurd (ground arith)
ltz_trans (negsuc a) (pos b) (pos c) h k = ground arith
ltz_trans (negsuc a) (pos b) (negsuc c) h k = absurd (ground arith)
ltz_trans (negsuc a) (negsuc b) (pos c) h k = ground arith
ltz_trans (negsuc a) (negsuc b) (negsuc c) h k = ground arith

pub eqz_sound : (a b : ℤ) → eqz a b ≡ true → a ≡ b
unfolding eqz
eqz_sound (pos a) (pos b) h = ground arith
eqz_sound (pos a) (negsuc b) h = absurd (ground arith)
eqz_sound (negsuc a) (pos b) h = absurd (ground arith)
eqz_sound (negsuc a) (negsuc b) h = ground arith

pub eqz_refl : (a : ℤ) → eqz a a ≡ true
unfolding eqz
eqz_refl (pos a) = ground arith
eqz_refl (negsuc a) = ground arith

pub ltz_irrefl : (a : ℤ) → ltz a a ≡ false
unfolding ltz
ltz_irrefl (pos a) = ground arith
ltz_irrefl (negsuc a) = ground arith

unfoldable pub addz : ℤ → ℤ → ℤ
addz (pos a) (pos b) = pos (a + b)
addz (pos a) (negsuc b) = minus a (suc b)
addz (negsuc a) (pos b) = minus b (suc a)
addz (negsuc a) (negsuc b) = negsuc (a + b + 1)
