-- ===== src/Base/Words.antt =====
-- Facts about bits of small values, checked over their whole range.
use Prim.Native.Nat.{ℕ, zero, suc, ◌+◌, ◌*◌, ◌/◌, ◌%◌, ◌<◌, bit_or, bit_and}
use mathlib.Core.Bool.{Bool, true, ◌&&◌}
use mathlib.Core.Path.{◌≡◌, refl}
use native.Mathlib.Omega.{arith}
use mydbg.Base.Tests.{◌==◌, ==_iff}

unfoldable pub all_below : ℕ → (ℕ → Bool) → Bool
all_below zero test = true
all_below (suc limit) test = test limit && all_below limit test

pub all_below_sound :
    (limit : ℕ) (test : ℕ → Bool) (value : ℕ)
    → all_below limit test ≡ true
    → value < limit
    → test value ≡ true
unfolding all_below
all_below_sound zero test value passed below = absurd (omega arith)
all_below_sound (suc limit) test value passed below =
    ground (arith, all_below_sound limit test value)

or_table : all_below 16 (λ h. all_below 16 (λ l. bit_or (h * 16 % 256) l == h * 16 + l)) ≡ true
unfolding all_below
or_table = refl

-- A nibble is put below another by `|`.
pub bit_or_nibbles : (h l : ℕ) → h < 16 → l < 16 → bit_or (h * 16 % 256) l ≡ h * 16 + l
bit_or_nibbles h l p q =
    (==_iff _ _).0
      (all_below_sound 16 _ l (all_below_sound 16 (λ k. all_below 16 _) h or_table p) q)

and_table :
    all_below 256 (λ b.
      bit_and b 0 == 0
      && bit_and b 15 == b % 16
      && bit_and b 240 == b / 16 * 16
      && bit_and b 255 == b)
    ≡ true
unfolding all_below
and_table = refl

-- A byte under the mask of each choice of its nibbles.
pub bit_and_nibbles :
    (b : ℕ)
    → b < 256
    → (bit_and b 0 ≡ 0)
      × (bit_and b 15 ≡ b % 16)
      × (bit_and b 240 ≡ b / 16 * 16)
      × (bit_and b 255 ≡ b)
bit_and_nibbles b h = ground (arith, all_below_sound 256 _ b and_table h)
