-- ===== src/Memory/Hex/Digits.antt =====
-- The two digits of a byte read back, and the texts that the round trips are about.
use mydbg.Base.{
  ℕ, ◌/◌, ◌%◌, ◌<◌, ◌≡◌, refl, ap, ◌≢◌, Bool, true, false, not, ◌&&◌, Option, none, some, [], ◌∷◌,
  arith, ◌==◌, ==_iff, get_or,
}
use mydbg.Base.Bytes.{Bytes, starts_with}
use mydbg.Base.Words.{all_below, all_below_sound}
use mydbg.Memory.Hex.{
  lower_digits, upper_digits, is_separator, hex_pair, without_hex_prefix, token_bytes, parse_token,
}

abbrev pub high : Bytes → ℕ → ℕ
high digits byte = get_or digits (byte / 16) 0

abbrev pub low : Bytes → ℕ → ℕ
low digits byte = get_or digits (byte % 16) 0

abbrev pub reads : Option ℕ → ℕ → Bool
reads none byte = false
reads (some value) byte = value == byte

reads_sound : (o : Option ℕ) (byte : ℕ) → reads o byte ≡ true → o ≡ some byte
reads_sound none byte h = ground arith
reads_sound (some value) byte h = ap some ((==_iff value byte).0 h)

abbrev pub good_byte : Bytes → ℕ → Bool
good_byte digits byte =
    reads (hex_pair (high digits byte) (low digits byte)) byte
    && not (is_separator (high digits byte))
    && not (is_separator (low digits byte))
    && not (low digits byte == b'x')
    && not (low digits byte == b'X')

-- Every byte has its two digits among these.
abbrev pub GoodDigits : Bytes → Type 0
GoodDigits digits = all_below 256 (good_byte digits) ≡ true

pub lower_digits-GoodDigits : GoodDigits lower_digits
unfolding all_below hex_pair is_separator
lower_digits-GoodDigits = refl

pub upper_digits-GoodDigits : GoodDigits upper_digits
unfolding all_below hex_pair is_separator
upper_digits-GoodDigits = refl

-- Two digits for each byte, a space before each
abbrev pub spaced : Bytes → Bytes → Bytes
spaced digits [] = []
spaced digits (byte ∷ bytes) = b' ' ∷ high digits byte ∷ low digits byte ∷ spaced digits bytes

-- the same without the first space
abbrev pub hex_text : Bytes → Bytes → Bytes
hex_text digits [] = []
hex_text digits (byte ∷ bytes) = high digits byte ∷ low digits byte ∷ spaced digits bytes

module _ (digits : Bytes) (good : GoodDigits digits) where
  pub good_bytes :
      (byte : ℕ)
      → byte < 256
      → (hex_pair (high digits byte) (low digits byte) ≡ some byte)
        × (is_separator (high digits byte) ≡ false)
        × (is_separator (low digits byte) ≡ false)
        × (low digits byte ≢ b'x')
        × (low digits byte ≢ b'X')
  good_bytes byte h = ground (
    arith,
    all_below_sound 256 (good_byte digits) byte good h,
    reads_sound (hex_pair (high digits byte) (low digits byte)) byte,
  )

  pub parse_pair :
      (byte : ℕ)
      → byte < 256
      → parse_token (high digits byte ∷ low digits byte ∷ []) ≡ some (byte ∷ [])
  unfolding parse_token without_hex_prefix token_bytes starts_with
  parse_pair byte h = ground (arith, good_bytes byte h)
