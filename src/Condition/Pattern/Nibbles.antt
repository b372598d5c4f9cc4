-- ===== src/Condition/Pattern/Nibbles.antt =====
-- src/backend/conditions/BreakpointCondition.cpp: what a decoded pattern says of each nibble.
use mydbg.Base.{
  ℕ, ◌+◌, ◌*◌, ◌/◌, ◌%◌, ◌<◌, ◌≡◌, ◌≢◌, ◌↔◌, ◌⊎◌, inl, inr, true, some, arith, ◌==◌, Bool-cases,
  Option-cases,
}
use mydbg.Base.Bytes.{hex_value}
use Prim.Native.Nat.{bit_and}
use mydbg.Condition.WellFormed.{IsMask}
use mydbg.Base.Words.{bit_or_nibbles, bit_and_nibbles}
use mydbg.Condition.Pattern.{add_nibble, decode_byte}

pub hex_value-lt : (c : ℕ) {v : ℕ} → hex_value c ≡ some v → v < 16
unfolding hex_value
hex_value-lt c e = ground arith

-- What one character of a pattern asks of a nibble.
abbrev pub NibbleMatches : ℕ → ℕ → Type 0
NibbleMatches c n = (c ≡ b'?') ⊎ (hex_value c ≡ some n)

-- A character read as a nibble: its value and the mask of its four bits.
abbrev pub IsNibble : ℕ → ℕ → ℕ → Type 0
IsNibble c value mask =
    ((c ≡ b'?') × (value ≡ 0) × (mask ≡ 0))
    ⊎ ((c ≢ b'?') × (hex_value c ≡ some value) × (mask ≡ 15) × (value < 16))

-- The nibbles of a decoded byte.
pub record IsByte (high low byte mask : ℕ) : Type 0 where
  pub h : ℕ
  pub l : ℕ
  pub h_mask : ℕ
  pub l_mask : ℕ
  pub high_is : IsNibble high h h_mask
  pub low_is : IsNibble low l l_mask
  pub byte_is : byte ≡ h * 16 + l
  pub mask_is : mask ≡ h_mask * 16 + l_mask

add_nibble-IsNibble :
    (c byte mask : ℕ) {byte' mask' : ℕ}
    → byte < 16
    → mask < 16
    → add_nibble c (byte, mask) ≡ some (byte', mask')
    → (v : ℕ) × (m : ℕ) × IsNibble c v m × (byte' ≡ byte * 16 + v) × (mask' ≡ mask * 16 + m)
unfolding add_nibble
add_nibble-IsNibble c byte mask p q e = elim (Bool-cases (c == b'?')) [
  | inl wild ↦ (0, 0, ground arith, ground arith, ground arith)
  | inr plain ↦ elim (Option-cases (hex_value c)) [
    | inl none_is ↦ ground arith
    | inr (v, v_is) ↦ (
      v,
      15,
      ground (arith, hex_value-lt c v_is),
      ground (arith, hex_value-lt c v_is, bit_or_nibbles byte v p),
      ground (arith, bit_or_nibbles mask 15 q),
    )
  ]
]

pub decode_byte-IsByte :
    (high low : ℕ) {byte mask : ℕ}
    → decode_byte high low ≡ some (byte, mask)
    → IsByte high low byte mask
unfolding decode_byte
decode_byte-IsByte high low e = elim (Option-cases (add_nibble high (0, 0))) [
  | inl none_is ↦ ground arith
  | inr ((b₀, m₀), some_is) ↦
      let (h, h_mask, high_is, b₀_is, m₀_is) =
        add_nibble-IsNibble high 0 0 (omega arith) (omega arith) some_is in
      let (l, l_mask, low_is, byte_is, mask_is) =
        add_nibble-IsNibble low b₀ m₀ (ground arith) (ground arith)
          (rw (some_is, decode_byte) at e) in
      record {
        h = h;
        l = l;
        h_mask = h_mask;
        l_mask = l_mask;
        high_is = high_is;
        low_is = low_is;
        byte_is = omega arith;
        mask_is = omega arith;
      }
]

-- The masked byte equals the expected one exactly where both nibbles match.
matches :
    (high low h l h_mask l_mask b : ℕ)
    → IsNibble high h h_mask
    → IsNibble low l l_mask
    → b < 256
    → ((bit_and b (h_mask * 16 + l_mask) == h * 16 + l) ≡ true)
      ↔ (NibbleMatches high (b / 16) × NibbleMatches low (b % 16))
matches high low h l h_mask l_mask b (inl x) (inl y) p = ground (arith, bit_and_nibbles b p)
matches high low h l h_mask l_mask b (inl x) (inr y) p = ground (arith, bit_and_nibbles b p)
matches high low h l h_mask l_mask b (inr x) (inl y) p = ground (arith, bit_and_nibbles b p)
matches high low h l h_mask l_mask b (inr x) (inr y) p = ground (arith, bit_and_nibbles b p)

masks :
    (high low h l h_mask l_mask : ℕ)
    → IsNibble high h h_mask
    → IsNibble low l l_mask
    → IsMask (h * 16 + l) (h_mask * 16 + l_mask)
masks high low h l h_mask l_mask (inl x) (inl y) = ground (arith, bit_and_nibbles (h * 16 + l))
masks high low h l h_mask l_mask (inl x) (inr y) = ground (arith, bit_and_nibbles (h * 16 + l))
masks high low h l h_mask l_mask (inr x) (inl y) = ground (arith, bit_and_nibbles (h * 16 + l))
masks high low h l h_mask l_mask (inr x) (inr y) = ground (arith, bit_and_nibbles (h * 16 + l))

module _ (high low : ℕ) {byte mask : ℕ} (r : IsByte high low byte mask) where
  pub IsByte-IsMask : IsMask byte mask
  IsByte-IsMask =
      rw (r.byte_is, r.mask_is) (masks high low r.h r.l r.h_mask r.l_mask r.high_is r.low_is)

  pub IsByte_matches :
      (b : ℕ)
      → b < 256
      → ((bit_and b mask == byte) ≡ true)
        ↔ (NibbleMatches high (b / 16) × NibbleMatches low (b % 16))
  IsByte_matches b =
      rw (r.byte_is, r.mask_is) (matches high low r.h r.l r.h_mask r.l_mask b r.high_is r.low_is)
