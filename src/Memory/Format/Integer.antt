-- ===== src/Memory/Format/Integer.antt =====
-- `format_memory_integer`: its text is the number that the bytes stand for.
use mydbg.Base.{
  ℕ, suc, ◌+◌, ◌-◌, ◌*◌, ◌/◌, ◌%◌, ◌≤◌, ◌<◌, ◌≡◌, refl, ap, ◌∙◌, ◌≢◌, Bool, true, ◌&&◌, some, [],
  ◌∷◌, ◌++◌, arith, ltb, ◌==◌, if◌then◌else◌, lt→ltb, length, get_or, drop_while, all,
  length-tabulate, take_while-all, drop_while-all,
}
use mydbg.Base.Bytes.{Bytes, codes, is_xdigit, hex_value, starts_with}
use mydbg.Base.Words.{all_below, all_below_sound}
use mydbg.Base.Endian.{AreBytes, big_value_from, big_value, little_value, big_value-lt}
use mydbg.Base.FromChars.{
  parsed, out_of_range, from_chars, from_digits, digits_value, digit, u64_mod,
}
use mydbg.Base.Tabulate.{tabulate_snoc, tabulate_ext, All-tabulate, All-get_or}
use mydbg.Memory.Hex.{upper_digits, hex_byte, whole, parse_value}
use mydbg.Memory.Hex.Digits.{high, low}
use mydbg.Memory.Format.{
  MemoryByteOrder, as_stored, little_endian, big_endian, hex_digits, backwards, integer_text,
  format_memory_integer,
}

abbrev good : ℕ → Bool
good b =
    digit (high upper_digits b) == b / 16
    && digit (low upper_digits b) == b % 16
    && is_xdigit (high upper_digits b)
    && is_xdigit (low upper_digits b)

good_table : all_below 256 good ≡ true
unfolding all_below is_xdigit hex_value
good_table = refl

good_digits :
    (b : ℕ)
    → b < 256
    → (digit (high upper_digits b) ≡ b / 16)
      × (digit (low upper_digits b) ≡ b % 16)
      × (is_xdigit (high upper_digits b) ≡ true)
      × (is_xdigit (low upper_digits b) ≡ true)
good_digits b h = ground (arith, all_below_sound 256 good b good_table h)

all_xdigit : (bytes : Bytes) → AreBytes bytes → all is_xdigit (hex_digits bytes) ≡ true
unfolding hex_digits hex_byte
all_xdigit [] h = refl
all_xdigit (b ∷ bytes) (h, hs) = ground (arith, good_digits b h, all_xdigit bytes hs)

digits_value-hex_digits :
    (value : ℕ) (bytes : Bytes)
    → AreBytes bytes
    → digits_value 16 value (hex_digits bytes) ≡ big_value_from value bytes
unfolding digits_value hex_digits hex_byte
digits_value-hex_digits value [] h = refl
digits_value-hex_digits value (b ∷ bytes) (h, hs) =
    ap (λ (t : ℕ). digits_value 16 t (hex_digits bytes)) (omega (arith, good_digits b h))
    ∙ digits_value-hex_digits (value * 256 + b) bytes hs

big_value_from-snoc :
    (value : ℕ) (bytes : Bytes) (b : ℕ)
    → big_value_from value (bytes ++ (b ∷ [])) ≡ big_value_from value bytes * 256 + b
big_value_from-snoc value [] b = refl
big_value_from-snoc value (c ∷ bytes) b = big_value_from-snoc (value * 256 + c) bytes b

backwards-cons : (b : ℕ) (bytes : Bytes) → backwards (b ∷ bytes) ≡ backwards bytes ++ (b ∷ [])
unfolding backwards
backwards-cons b bytes =
    tabulate_snoc (length bytes) (λ i. get_or (b ∷ bytes) (suc (length bytes) - 1 - i) 0)
    ∙ ap (λ (t : Bytes). t ++ (get_or (b ∷ bytes) (suc (length bytes) - 1 - length bytes) 0 ∷ []))
        (tabulate_ext (length bytes) _ (λ i. get_or bytes (length bytes - 1 - i) 0)
          (λ i l.
            ap (λ (k : ℕ). get_or (b ∷ bytes) k 0) {x = suc (length bytes) - 1 - i}
              {y = suc (length bytes - 1 - i)} (omega arith)))
    ∙ ap (λ (k : ℕ). backwards bytes ++ (get_or (b ∷ bytes) k 0 ∷ []))
        {x = suc (length bytes) - 1 - length bytes} {y = 0} (omega arith)

pub big_value-backwards : (bytes : Bytes) → big_value (backwards bytes) ≡ little_value bytes
unfolding backwards
big_value-backwards [] = refl
big_value-backwards (b ∷ bytes) =
    ap big_value (backwards-cons b bytes)
    ∙ big_value_from-snoc 0 (backwards bytes) b
    ∙ omega (arith, big_value-backwards bytes)

length-backwards : (bytes : Bytes) → length (backwards bytes) ≡ length bytes
unfolding backwards
length-backwards bytes = length-tabulate (length bytes) _

backwards-AreBytes : (bytes : Bytes) → AreBytes bytes → AreBytes (backwards bytes)
unfolding backwards
backwards-AreBytes bytes h =
    All-tabulate (λ (b : ℕ). b < 256) (length bytes) _
      (λ i l. All-get_or (λ (b : ℕ). b < 256) bytes (length bytes - 1 - i) 0 h (omega arith))

from_digits-hex_digits :
    (byte : ℕ) (bytes : Bytes)
    → AreBytes (byte ∷ bytes)
    → length (byte ∷ bytes) ≤ 8
    → from_digits true (hex_digits (byte ∷ bytes)) [] ≡ parsed (big_value (byte ∷ bytes)) []
unfolding from_digits hex_digits hex_byte
from_digits-hex_digits byte bytes h l =
    ap (λ (v : ℕ). if ltb v u64_mod then parsed v [] else out_of_range [])
      (digits_value-hex_digits 0 (byte ∷ bytes) h)
    ∙ ap (λ (t : Bool). if t then parsed (big_value (byte ∷ bytes)) [] else out_of_range [])
        (lt→ltb (big_value (byte ∷ bytes)) u64_mod (big_value-lt (byte ∷ bytes) h l))

-- The text behind "0x" is read as the number that the bytes make, the first byte highest.
from_chars-hex_digits :
    (byte : ℕ) (bytes : Bytes)
    → AreBytes (byte ∷ bytes)
    → length (byte ∷ bytes) ≤ 8
    → from_chars true (hex_digits (byte ∷ bytes)) ≡ parsed (big_value (byte ∷ bytes)) []
unfolding from_chars
from_chars-hex_digits byte bytes h l =
    ap (λ (t : Bytes). from_digits true t (drop_while is_xdigit (hex_digits (byte ∷ bytes))))
      (take_while-all is_xdigit (hex_digits (byte ∷ bytes)) (all_xdigit (byte ∷ bytes) h))
    ∙ ap (from_digits true (hex_digits (byte ∷ bytes)))
        (drop_while-all is_xdigit (hex_digits (byte ∷ bytes)) (all_xdigit (byte ∷ bytes) h))
    ∙ from_digits-hex_digits byte bytes h l

parse_value-hex_digits :
    (bytes : Bytes)
    → AreBytes bytes
    → 0 < length bytes
    → length bytes ≤ 8
    → parse_value (codes "0x" ++ hex_digits bytes) ≡ some (big_value bytes)
unfolding parse_value starts_with
parse_value-hex_digits [] h p l = absurd (omega arith)
parse_value-hex_digits (byte ∷ bytes) h p l = ap whole (from_chars-hex_digits byte bytes h l)

-- The number that the bytes stand for in the order asked for
abbrev pub interpreted : MemoryByteOrder → Bytes → ℕ
interpreted little_endian bytes = little_value bytes
interpreted _ bytes = big_value bytes

format_memory_integer-integer_text :
    (bytes : Bytes) (order : MemoryByteOrder)
    → 0 < length bytes
    → length bytes ≤ 8
    → format_memory_integer bytes order ≡ integer_text order bytes
unfolding format_memory_integer
format_memory_integer-integer_text bytes order p l = ground arith

-- For one to eight bytes and a byte order other than `as_stored`, `format_memory_integer` gives a
-- text which `parse_value` reads as the number that the bytes stand for in that order.
pub parse_value-format_memory_integer :
    (bytes : Bytes) (order : MemoryByteOrder)
    → AreBytes bytes
    → 0 < length bytes
    → length bytes ≤ 8
    → order ≢ as_stored
    → (text : Bytes) × (format_memory_integer bytes order ≡ some text)
      × (parse_value text ≡ some (interpreted order bytes))
unfolding integer_text
parse_value-format_memory_integer bytes as_stored h p l other = absurd (other refl)
parse_value-format_memory_integer bytes little_endian h p l other = (
  codes "0x" ++ hex_digits (backwards bytes),
  format_memory_integer-integer_text bytes little_endian p l,
  parse_value-hex_digits (backwards bytes) (backwards-AreBytes bytes h)
        (omega (arith, length-backwards bytes)) (omega (arith, length-backwards bytes))
      ∙ ap some (big_value-backwards bytes),
)
parse_value-format_memory_integer bytes big_endian h p l other = (
  codes "0x" ++ hex_digits bytes,
  format_memory_integer-integer_text bytes big_endian p l,
  parse_value-hex_digits bytes h p l,
)
