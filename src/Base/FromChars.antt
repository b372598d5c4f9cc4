-- ===== src/Base/FromChars.antt =====
-- `std::from_chars` for `std::uint64_t`, as far as the source uses it: the longest run of digits
-- in the base, its value, and the text behind it.
use Prim.Native.Nat.{ℕ, ◌+◌, ◌*◌, ◌^◌}
use mathlib.Core.Bool.{Bool}
use mathlib.Core.List.{[], ◌∷◌}
use mathlib.Core.Option.{none, some}
use mydbg.Base.Tests.{ltb, if◌then◌else◌}
use mydbg.Base.Lists.{take_while, drop_while}
use mydbg.Base.Bytes.{Bytes, is_digit, is_xdigit, hex_value}

abbrev pub u64_mod : ℕ
u64_mod = 2 ^ 64

-- `invalid_argument`: no digit; `out_of_range`: the value needs more than 64 bits.
pub data FromChars : Type 0 where
  parsed : ℕ → Bytes → FromChars
  invalid_argument : FromChars
  out_of_range : Bytes → FromChars

abbrev pub digit : ℕ → ℕ
digit c = elim (hex_value c) [ none ↦ 0 | some d ↦ d ]

unfoldable pub digits_value : ℕ → ℕ → Bytes → ℕ
digits_value base acc [] = acc
digits_value base acc (c ∷ cs) = digits_value base (acc * base + digit c) cs

-- base 16 if the flag is set, else base 10
abbrev pub is_base_digit : Bool → ℕ → Bool
is_base_digit hex c = if hex then is_xdigit c else is_digit c

abbrev pub radix : Bool → ℕ
radix hex = if hex then 16 else 10

unfoldable pub from_digits : Bool → Bytes → Bytes → FromChars
unfolding digits_value hex_value
from_digits hex [] rest = invalid_argument
from_digits hex (d ∷ ds) rest =
    let value = digits_value (radix hex) 0 (d ∷ ds) in
    if ltb value u64_mod then parsed value rest else out_of_range rest

unfoldable pub from_chars : Bool → Bytes → FromChars
unfolding from_digits is_digit is_xdigit
from_chars hex text =
    from_digits hex (take_while (is_base_digit hex) text) (drop_while (is_base_digit hex) text)
