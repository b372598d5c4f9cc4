-- ===== src/Condition/Pattern.antt =====
-- src/backend/conditions/BreakpointCondition.cpp: `decode_pattern`, which turns a text such as
-- "DE AD ?? 0F" into the expected bytes and their mask.
pub mod Nibbles
pub mod Matching
use mydbg.Base.{
  ℕ, ◌*◌, ◌/◌, ◌%◌, not, ◌||◌, Option, none, some, [], ◌∷◌, ltb, ◌==◌, if◌then◌else◌, length,
}
use mydbg.Base.Bytes.{Bytes, is_space, hex_value}
use Prim.Native.Nat.{bit_or}
use mydbg.Condition.Syntax.{Key, pattern_incomplete_bytes, pattern_too_long, pattern_invalid_hex}

-- `std::isspace` bytes are left out.
unfoldable pub compact : Bytes → Bytes
unfolding is_space
compact [] = []
compact (c ∷ cs) = if is_space c then compact cs else c ∷ compact cs

-- One round of the inner loop on `byte` and `byte_mask`; `none` is `hex_value(character) < 0`.
unfoldable pub add_nibble : ℕ → ℕ × ℕ → Option (ℕ × ℕ)
unfolding hex_value
add_nibble c (byte, byte_mask) =
    let shifted = byte * 16 % 256 in
    let shifted_mask = byte_mask * 16 % 256 in
    if c == b'?' then some (shifted, shifted_mask) else elim (hex_value c) [
      | none ↦ none
      | some value ↦ some (bit_or shifted value, bit_or shifted_mask 15)
    ]

unfoldable pub decode_byte : ℕ → ℕ → Option (ℕ × ℕ)
unfolding add_nibble
decode_byte high low = elim (add_nibble high (0, 0)) [
  | none ↦ none
  | some state ↦ add_nibble low state
]

abbrev pub push_byte : Option (ℕ × ℕ) → Option (Bytes × Bytes) → Option (Bytes × Bytes)
push_byte (some (byte, mask)) (some (bytes, masks)) = some (byte ∷ bytes, mask ∷ masks)
push_byte _ _ = none

-- The loop over pairs of characters: `expected` and `mask`.
unfoldable pub decode_bytes : Bytes → Option (Bytes × Bytes)
unfolding decode_byte
decode_bytes (high ∷ low ∷ cs) = push_byte (decode_byte high low) (decode_bytes cs)
decode_bytes _ = some ([], [])

pub data Decoded : Type 0 where
  decoded : Bytes → Bytes → Decoded
  refused : Key → Decoded

abbrev pub max_pattern : ℕ
max_pattern = 256

abbrev pub decoded_or : Option (Bytes × Bytes) → Decoded
decoded_or none = refused pattern_invalid_hex
decoded_or (some (expected, mask)) = decoded expected mask

-- the steps of `decode_pattern` on the text without its spaces
unfoldable pub decode_compact : Bytes → Decoded
decode_compact cs =
    let size = length cs in
    if size == 0 || not (size % 2 == 0)
    then refused pattern_incomplete_bytes
    else if ltb max_pattern (size / 2)
    then refused pattern_too_long
    else decoded_or (decode_bytes cs)

unfoldable pub decode_pattern : Bytes → Decoded
unfolding compact decode_bytes decode_compact
decode_pattern pattern' = decode_compact (compact pattern')
