-- ===== src/Prelude/Bits.antt =====
-- The binary digits of `bit_or` and `bit_and` at variables.
use soapy_sdrplay.Prelude.{}
use Prim.Native.Nat.{
  ℕ, zero, suc, ◌/◌, ◌%◌, ◌≤◌, ◌<◌, min, max, bit_and, bit_or, digits, bit_and-bitwise,
  bit_or-bitwise,
}
use mathlib.Core.Path.{◌≡◌, refl, sym, ap, ◌∙◌}
use native.Mathlib.Omega.{arith}

abbrev digit_at : (k n : ℕ) → ℕ
digit_at zero n = n % 2
digit_at (suc k) n = digit_at k (n / 2)

digit_at_small : (k n : ℕ) → digit_at k n < 2
digit_at_small zero n = omega arith
digit_at_small (suc k) n = digit_at_small k (n / 2)

digit_at-zero : (k : ℕ) → digit_at k 0 ≡ 0
digit_at-zero zero = refl
digit_at-zero (suc k) = digit_at-zero k

-- An operation on single digits, with what it makes of a number beside 0.
module _ (alone : ℕ → ℕ) (both : ℕ → ℕ → ℕ)
    (alone_lem : (k b : ℕ) → digit_at k (alone b) ≡ both 0 (digit_at k b))
    (both_small : (x y : ℕ) → x < 2 → y < 2 → both x y < 2) where
  -- With as many rounds as the first number, each digit is that of the two digits.
  digit_at-digits :
      (k rounds a b : ℕ)
      → a ≤ rounds
      → digit_at k (digits alone both rounds a b) ≡ both (digit_at k a) (digit_at k b)
  digit_at-digits k zero zero b h =
      alone_lem k b ∙ ap (λ x. both x (digit_at k b)) (sym (digit_at-zero k))
  digit_at-digits k zero (suc a) b h = absurd (omega arith)
  digit_at-digits k (suc rounds) zero b h =
      alone_lem k b ∙ ap (λ x. both x (digit_at k b)) (sym (digit_at-zero k))
  digit_at-digits zero (suc rounds) (suc a) b h =
      omega (arith, both_small (suc a % 2) (b % 2) (omega arith) (omega arith))
  digit_at-digits (suc k) (suc rounds) (suc a) b h =
      ap (digit_at k) (omega (arith, both_small (suc a % 2) (b % 2) (omega arith) (omega arith)))
      ∙ digit_at-digits k rounds (suc a / 2) (b / 2) (omega arith)

-- The fourth digit of each.
pub bit_or_fourth : (a b : ℕ) → bit_or a b / 8 % 2 ≡ max (a / 8 % 2) (b / 8 % 2)
bit_or_fourth a b = omega (
  arith,
  digit_at-digits (λ y. y) max (λ k y. omega arith) (λ x y p q. omega arith) 3 a a b (omega arith),
  bit_or-bitwise a b,
)

pub bit_and_fourth : (a b : ℕ) → bit_and a b / 8 % 2 ≡ min (a / 8 % 2) (b / 8 % 2)
bit_and_fourth a b = omega (
  arith,
  digit_at-digits (λ y. 0) min (λ k y. digit_at-zero k ∙ omega arith) (λ x y p q. omega arith) 3 a a
      b (omega arith),
  bit_and-bitwise a b,
)
