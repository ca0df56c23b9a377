-- ===== src/Prelude/Bits.antt =====
-- Two tests on one byte agree if they do on each of its values, which evaluation finds out.
use Prim.Native.Nat.{ℕ, zero, suc, ◌<◌}
use mathlib.Core.Path.{◌≡◌, refl}
use mathlib.Core.Bool.{Bool, true, false, ◌&&◌}
use native.Mathlib.Omega.{arith}

unfoldable pub same : Bool → Bool → Bool
same true b = b
same false true = false
same false false = true

same_sound : (a b : Bool) → same a b ≡ true → a ≡ b
unfolding same
same_sound true true h = refl
same_sound true false h = cc
same_sound false true h = cc
same_sound false false h = refl

-- On the numbers below the last argument.
unfoldable pub same_below : (ℕ → Bool) → (ℕ → Bool) → ℕ → Bool
unfolding same
same_below f g zero = true
same_below f g (suc bound) = same (f bound) (g bound) && same_below f g bound

pub agree_below :
    (bound : ℕ) (f g : ℕ → Bool) (i : ℕ) → same_below f g bound ≡ true → i < bound → f i ≡ g i
unfolding same_below
agree_below zero f g i h below = absurd (omega arith)
agree_below (suc bound) f g i h below =
    grind (arith, same_sound (f bound) (g bound), agree_below bound f g i)
