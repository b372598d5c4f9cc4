-- ===== src/Base/Bits.antt =====
-- `|` where the operands do not meet, as arithmetic at every width.
use Prim.Native.Nat.{
  ℕ, zero, suc, ◌+◌, ◌*◌, ◌/◌, ◌^◌, ◌≤◌, ◌<◌, max, bit_or, digits, bit_or-bitwise,
}
use mathlib.Core.Path.{◌≡◌, refl, ap}
use native.Mathlib.Omega.{arith}
use native.Mathlib.Nat.{pow-suc}

two_pow-suc : (k q : ℕ) → q * 2 ^ suc k ≡ q * 2 ^ k * 2
two_pow-suc k q = omega (arith, ap (λ (t : ℕ). q * t) (pow-suc 2 k))

or_digits-zero : (n a : ℕ) → a ≤ n → digits (λ b. b) max n a 0 ≡ a
or_digits-zero zero zero h = refl
or_digits-zero zero (suc a) h = absurd (omega arith)
or_digits-zero (suc n) zero h = refl
or_digits-zero (suc n) (suc a) h = omega (arith, or_digits-zero n (suc a / 2) (omega arith))

or_digits_high :
    (k n a q r : ℕ) → a ≡ q * 2 ^ k → r < 2 ^ k → a ≤ n → digits (λ b. b) max n a r ≡ a + r
or_digits_high zero n a q zero e h l = omega (arith, or_digits-zero n a l)
or_digits_high zero n a q (suc r) e h l = absurd (omega arith)
or_digits_high (suc k) zero zero q r e h l = omega arith
or_digits_high (suc k) zero (suc a) q r e h l = absurd (omega arith)
or_digits_high (suc k) (suc n) zero q r e h l = omega arith
or_digits_high (suc k) (suc n) (suc a) q r e h l = omega (
  arith,
  or_digits_high k n (suc a / 2) q (r / 2) (omega (arith, two_pow-suc k q))
      (omega (arith, pow-suc 2 k)) (omega arith),
  two_pow-suc k q,
)

-- Low bits are put below high ones by `|`.
pub bit_or_low : (k q r : ℕ) → r < 2 ^ k → bit_or (q * 2 ^ k) r ≡ q * 2 ^ k + r
bit_or_low k q r h =
    simp bit_or-bitwise (or_digits_high k (q * 2 ^ k) (q * 2 ^ k) q r refl h (omega arith))

-- High bits are put above low ones by `|`.
or_digits_low :
    (k n a b q : ℕ) → b ≡ q * 2 ^ k → a < 2 ^ k → a ≤ n → digits (λ b. b) max n a b ≡ a + b
or_digits_low k zero zero b q e h l = omega arith
or_digits_low k (suc n) zero b q e h l = omega arith
or_digits_low zero n (suc a) b q e h l = absurd (omega arith)
or_digits_low (suc k) zero (suc a) b q e h l = absurd (omega arith)
or_digits_low (suc k) (suc n) (suc a) b q e h l = omega (
  arith,
  or_digits_low k n (suc a / 2) (b / 2) q (omega (arith, two_pow-suc k q))
      (omega (arith, pow-suc 2 k)) (omega arith),
  two_pow-suc k q,
)

pub bit_or_high : (k q a : ℕ) → a < 2 ^ k → bit_or a (q * 2 ^ k) ≡ a + q * 2 ^ k
bit_or_high k q a h = simp bit_or-bitwise (or_digits_low k a a (q * 2 ^ k) q refl h (omega arith))
