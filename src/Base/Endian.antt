-- ===== src/Base/Endian.antt =====
-- Bytes put together to a `std::uint64_t`, first byte highest or first byte lowest.
use Prim.Native.Nat.{ℕ, suc, ◌+◌, ◌*◌, ◌%◌, ◌^◌, ◌≤◌, ◌<◌, bit_or}
use mathlib.Core.Path.{◌≡◌, refl, ap, ◌∙◌}
use mathlib.Core.List.{[], ◌∷◌}
use native.Mathlib.Omega.{arith}
use native.Mathlib.Nat.{mul_assoc, mul-add, mul-le-mul_left, mul-le-mul_right, pow-suc, mul_comm}
use mydbg.Base.Bytes.{Bytes}
use mydbg.Base.Lists.{length, All}
use mydbg.Base.Bits.{bit_or_low, bit_or_high}

-- `for (byte : bytes) value = (value << 8U) | byte;`
unfoldable pub shift_in : ℕ → Bytes → ℕ
shift_in value [] = value
shift_in value (b ∷ bs) = shift_in (bit_or (value * 256 % 2 ^ 64) b) bs

-- `for (index …) value |= static_cast<std::uint64_t>(byte) << (index * 8U);`
unfoldable pub or_in : ℕ → ℕ → Bytes → ℕ
or_in index value [] = value
or_in index value (b ∷ bs) = or_in (index + 1) (bit_or value (b * 2 ^ (index * 8) % 2 ^ 64)) bs

-- The numbers that the bytes stand for.
abbrev pub little_value : Bytes → ℕ
little_value [] = 0
little_value (b ∷ bs) = b + 256 * little_value bs

abbrev pub big_value_from : ℕ → Bytes → ℕ
big_value_from value [] = value
big_value_from value (b ∷ bs) = big_value_from (value * 256 + b) bs

abbrev pub big_value : Bytes → ℕ
big_value = big_value_from 0

abbrev pub AreBytes : Bytes → Type 0
AreBytes = All (λ b. b < 256)

-- 256 to the number of bytes
abbrev pub weight : Bytes → ℕ
weight [] = 1
weight (b ∷ bs) = 256 * weight bs

weight_pos : (bs : Bytes) → 0 < weight bs
weight_pos [] = omega arith
weight_pos (b ∷ bs) = omega (arith, weight_pos bs)

pub little_value-lt : (bs : Bytes) → AreBytes bs → little_value bs < weight bs
little_value-lt [] h = omega arith
little_value-lt (b ∷ bs) (h, hs) = omega (arith, little_value-lt bs hs)

push_small : (v b : ℕ) → v * 256 < 2 ^ 64 → v * 256 % 2 ^ 64 ≡ v * 2 ^ 8
push_small v b h = omega arith

push : (v b : ℕ) → v * 256 < 2 ^ 64 → b < 256 → bit_or (v * 256 % 2 ^ 64) b ≡ v * 256 + b
push v b h l =
    ap (λ (t : ℕ). bit_or t b) (push_small v b h)
    ∙ bit_or_low 8 v b (omega (arith, l))
    ∙ omega arith

step_bound :
    (value b w limit : ℕ)
    → b < 256
    → (value + 1) * (256 * w) ≤ limit
    → (value * 256 + b + 1) * w ≤ limit
step_bound value b w limit h l = omega (
  arith,
  mul-le-mul_right {m = value * 256 + b + 1} {n = (value + 1) * 256} w (omega arith),
  mul_assoc (value + 1) 256 w,
)

fits : (value w limit : ℕ) → 0 < w → (value + 1) * (256 * w) ≤ limit → value * 256 < limit
fits value w limit p l = omega (
  arith,
  mul-le-mul_left {m = 1} {n = w} ((value + 1) * 256) (omega arith),
  mul_assoc (value + 1) 256 w,
)

shift_in-big_value_from :
    (value : ℕ) (bs : Bytes)
    → AreBytes bs
    → (value + 1) * weight bs ≤ 2 ^ 64
    → shift_in value bs ≡ big_value_from value bs
unfolding shift_in
shift_in-big_value_from value [] h l = refl
shift_in-big_value_from value (b ∷ bs) (h, hs) l =
    ap (λ (t : ℕ). shift_in t bs)
      (push value b (fits value (weight bs) (2 ^ 64) (weight_pos bs) l) h)
    ∙ shift_in-big_value_from (value * 256 + b) bs hs (step_bound value b (weight bs) (2 ^ 64) h l)

pub weight-le : (bs : Bytes) → length bs ≤ 8 → weight bs ≤ 2 ^ 64
weight-le [] h = omega arith
weight-le (_ ∷ []) h = omega arith
weight-le (_ ∷ _ ∷ []) h = omega arith
weight-le (_ ∷ _ ∷ _ ∷ []) h = omega arith
weight-le (_ ∷ _ ∷ _ ∷ _ ∷ []) h = omega arith
weight-le (_ ∷ _ ∷ _ ∷ _ ∷ _ ∷ []) h = omega arith
weight-le (_ ∷ _ ∷ _ ∷ _ ∷ _ ∷ _ ∷ []) h = omega arith
weight-le (_ ∷ _ ∷ _ ∷ _ ∷ _ ∷ _ ∷ _ ∷ []) h = omega arith
weight-le (_ ∷ _ ∷ _ ∷ _ ∷ _ ∷ _ ∷ _ ∷ _ ∷ []) h = omega arith
weight-le (_ ∷ _ ∷ _ ∷ _ ∷ _ ∷ _ ∷ _ ∷ _ ∷ _ ∷ bs) h = absurd (omega arith)

-- At most eight bytes fit.
pub shift_in-big_value : (bs : Bytes) → AreBytes bs → length bs ≤ 8 → shift_in 0 bs ≡ big_value bs
shift_in-big_value bs h l = shift_in-big_value_from 0 bs h (omega (arith, weight-le bs l))

power_eight : (k : ℕ) → 2 ^ (suc (suc (suc (suc (suc (suc (suc (suc k)))))))) ≡ 256 * 2 ^ k
power_eight k = omega (
  arith,
  pow-suc 2 k,
  pow-suc 2 (suc k),
  pow-suc 2 (suc (suc k)),
  pow-suc 2 (suc (suc (suc k))),
  pow-suc 2 (suc (suc (suc (suc k)))),
  pow-suc 2 (suc (suc (suc (suc (suc k))))),
  pow-suc 2 (suc (suc (suc (suc (suc (suc k)))))),
  pow-suc 2 (suc (suc (suc (suc (suc (suc (suc k))))))),
)

power_step : (i : ℕ) → 2 ^ ((i + 1) * 8) ≡ 256 * 2 ^ (i * 8)
power_step i =
    ap (λ (t : ℕ). 2 ^ t) {x = (i + 1) * 8}
      {y = suc (suc (suc (suc (suc (suc (suc (suc (i * 8))))))))} (omega arith)
    ∙ power_eight (i * 8)

or_small : (p b w : ℕ) → b < 256 → 0 < w → p * (256 * w) ≤ 2 ^ 64 → 0 < p → b * p % 2 ^ 64 ≡ b * p
or_small p b w h pos l q = omega (
  arith,
  mul-le-mul_right {m = b} {n = 255} p (omega arith),
  mul-le-mul_left {m = 1} {n = w} (p * 256) (omega arith),
  mul_assoc p 256 w,
)

regroup : (v b p p' l : ℕ) → p' ≡ 256 * p → v + b * p + p' * l ≡ v + p * (b + 256 * l)
regroup v b p p' l e = omega (
  arith,
  ap (λ (t : ℕ). t * l) e,
  mul-add p b (256 * l),
  mul_comm p b,
  mul_assoc p 256 l,
  ap (λ (t : ℕ). t * l) (mul_comm p 256),
)

regroup_bound : (p p' w limit : ℕ) → p' ≡ 256 * p → p * (256 * w) ≤ limit → p' * w ≤ limit
regroup_bound p p' w limit e h =
    omega
      (arith, ap (λ (t : ℕ). t * w) e, mul_assoc p 256 w, ap (λ (t : ℕ). t * w) (mul_comm p 256))

or_in-little_value_from :
    (index value : ℕ) (bs : Bytes)
    → AreBytes bs
    → value < 2 ^ (index * 8)
    → 2 ^ (index * 8) * weight bs ≤ 2 ^ 64
    → or_in index value bs ≡ value + 2 ^ (index * 8) * little_value bs
unfolding or_in
or_in-little_value_from index value [] h v l = omega arith
or_in-little_value_from index value (b ∷ bs) (h, hs) v l =
    ap (λ (t : ℕ). or_in (index + 1) t bs)
      (ap (bit_or value)
          (or_small (2 ^ (index * 8)) b (weight bs) h (weight_pos bs) l (omega arith))
        ∙ bit_or_high (index * 8) b value v)
    ∙ or_in-little_value_from (index + 1) (value + b * 2 ^ (index * 8)) bs hs
        (omega (
          arith,
          power_step index,
          mul-le-mul_right {m = b} {n = 255} (2 ^ (index * 8)) (omega arith),
        ))
        (regroup_bound (2 ^ (index * 8)) (2 ^ ((index + 1) * 8)) (weight bs) (2 ^ 64)
          (power_step index) l)
    ∙ regroup value b (2 ^ (index * 8)) (2 ^ ((index + 1) * 8)) (little_value bs) (power_step index)

-- At most eight bytes fit.
pub or_in-little_value : (bs : Bytes) → AreBytes bs → length bs ≤ 8 → or_in 0 0 bs ≡ little_value bs
or_in-little_value bs h l =
    or_in-little_value_from 0 0 bs h (omega arith) (omega (arith, weight-le bs l)) ∙ omega arith

big_value_from-lt :
    (value : ℕ) (bs : Bytes) → AreBytes bs → big_value_from value bs < (value + 1) * weight bs
big_value_from-lt value [] h = omega arith
big_value_from-lt value (b ∷ bs) (h, hs) = omega (
  arith,
  big_value_from-lt (value * 256 + b) bs hs,
  step_bound value b (weight bs) ((value + 1) * (256 * weight bs)) h (omega arith),
)

pub big_value-lt : (bs : Bytes) → AreBytes bs → length bs ≤ 8 → big_value bs < 2 ^ 64
big_value-lt bs h l = omega (arith, big_value_from-lt 0 bs h, weight-le bs l)
