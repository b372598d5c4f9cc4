-- ===== src/Scan/Values.antt =====
-- src/backend/lldb/LldbEngineScanning.cpp: the values of a memory scan as bytes. The floating point
-- types are not modelled beyond their width: the functions take the integer types.
use mydbg.Base.{
  ℕ, zero, suc, ◌+◌, ◌-◌, ◌*◌, ◌/◌, ◌%◌, ◌^◌, Bool, true, false, not, ◌||◌, [], ◌∷◌, ltb, ◌==◌,
  if◌then◌else◌, get_or, set, drop, replicate, drop_while,
}
use mydbg.Base.Bytes.{Bytes, codes, is_space, starts_with}
use Prim.Native.Nat.{bit_and, bit_or, bit_xor}
use mydbg.Base.FromChars.{FromChars, parsed, from_chars, u64_mod}
use mydbg.Base.Int.{ℤ, pos, negsuc, ltbℤ}

pub data ValueScanType : Type 0 where
  byte word dword qword float double : ValueScanType

unfoldable pub value_scan_width : ValueScanType → ℕ
value_scan_width ValueScanType.byte = 1
value_scan_width ValueScanType.word = 2
value_scan_width ValueScanType.dword = 4
value_scan_width ValueScanType.float = 4
value_scan_width ValueScanType.qword = 8
value_scan_width ValueScanType.double = 8

-- `std::array<std::uint8_t, 8>`
abbrev pub zero_bytes : Bytes
zero_bytes = replicate 8 0

-- The loops count rounds: `left` rounds are to come, and `index` is the loop's variable.
unfoldable pub decode_rounds : Bytes → ℕ → Bool → ℕ → ℕ → ℕ → ℕ
decode_rounds bytes width big_endian zero index value = value
decode_rounds bytes width big_endian (suc left) index value =
    let byte_index = if big_endian then index else width - 1 - index in
    decode_rounds bytes width big_endian left (index + 1)
      (bit_or (value * 256 % u64_mod) (get_or bytes byte_index 0))

unfoldable pub decode_scan_unsigned : Bytes → ℕ → Bool → ℕ
unfolding decode_rounds
decode_scan_unsigned bytes width big_endian = decode_rounds bytes width big_endian width 0 0

-- `static_cast<std::int64_t>`
abbrev pub signed64 : ℕ → ℤ
signed64 w = if ltb w (2 ^ 63) then pos w else negsuc (2 ^ 64 - w - 1)

unfoldable pub decode_scan_signed : Bytes → ℕ → Bool → ℤ
unfolding decode_scan_unsigned
decode_scan_signed bytes width big_endian =
    let raw = decode_scan_unsigned bytes width big_endian in
    if width == 8
    then signed64 raw
    else (let sign = 2 ^ (width * 8 - 1) in
        signed64 ((bit_xor raw sign + u64_mod - sign) % u64_mod))

unfoldable pub encode_rounds : ℕ → Bool → ℕ → ℕ → ℕ → Bytes → Bytes
encode_rounds width big_endian zero index value bytes = bytes
encode_rounds width big_endian (suc left) index value bytes =
    let byte_index = if big_endian then width - 1 - index else index in
    encode_rounds width big_endian left (index + 1) (value / 256)
      (set bytes byte_index (value % 256))

unfoldable pub encode_scan_unsigned : ℕ → ℕ → Bool → Bytes
unfolding encode_rounds
encode_scan_unsigned value width big_endian =
    encode_rounds width big_endian width 0 value zero_bytes

pub data ScanError : Type 0 where
  value_required invalid_integer negative_requires_signed : ScanError
  signed_value_out_of_range value_out_of_range : ScanError

pub data Scanned {ℓ} (A : Type ℓ) : Type ℓ where
  ok : A → Scanned A
  err : ScanError → Scanned A

abbrev before_end : ℕ → Bytes → Bytes
unfolding is_space
before_end c [] = if is_space c then [] else c ∷ []
before_end c (d ∷ ds) = c ∷ d ∷ ds

-- `trim` of src/backend/lldb/LldbEngineUtilities.cpp: white space at both ends goes.
unfoldable pub trim_end : Bytes → Bytes
unfolding before_end
trim_end [] = []
trim_end (c ∷ cs) = before_end c (trim_end cs)

unfoldable pub trim : Bytes → Bytes
unfolding trim_end is_space
trim text = trim_end (drop_while is_space text)

abbrev pub maximum : ℕ → ℕ
maximum width = if width == 8 then u64_mod - 1 else 2 ^ (width * 8) - 1

-- the range check and the two's complement of a number that is read
unfoldable pub in_range : Bool → Bool → ℕ → ℕ → Scanned ℕ
in_range negative signed_values width magnitude =
    if negative
    then (if not signed_values
        then err negative_requires_signed
        else if ltb (2 ^ (width * 8 - 1)) magnitude
        then err signed_value_out_of_range
        else ok ((u64_mod - magnitude) % u64_mod))
    else if ltb (if signed_values then maximum width / 2 else maximum width) magnitude
    then err (if signed_values then signed_value_out_of_range else value_out_of_range)
    else ok magnitude

abbrev pub encoded : ValueScanType → Bool → Scanned ℕ → Scanned Bytes
unfolding encode_scan_unsigned value_scan_width
encoded type big_endian (err e) = err e
encoded type big_endian (ok value) = ok (
    encode_scan_unsigned (bit_and value (maximum (value_scan_width type))) (value_scan_width type)
      big_endian)

-- `text.empty() || parse_error != std::errc{} || end != …`
abbrev pub parsed_integer : ValueScanType → Bool → Bool → Bool → FromChars → Scanned Bytes
unfolding in_range encoded value_scan_width
parsed_integer type negative signed_values big_endian (parsed magnitude []) =
    encoded type big_endian (in_range negative signed_values (value_scan_width type) magnitude)
parsed_integer type negative signed_values big_endian _ = err invalid_integer

unfoldable pub parse_magnitude : ValueScanType → Bool → Bool → Bool → Bytes → Scanned Bytes
unfolding parsed_integer from_chars starts_with
parse_magnitude type negative signed_values big_endian text =
    if starts_with (codes "0x") text || starts_with (codes "0X") text
    then parsed_integer type negative signed_values big_endian (from_chars true (drop 2 text))
    else parsed_integer type negative signed_values big_endian (from_chars false text)

abbrev parse_signed : ValueScanType → Bool → Bool → Bytes → Scanned Bytes
unfolding parse_magnitude
parse_signed type signed_values big_endian [] = err value_required
parse_signed type signed_values big_endian (c ∷ cs) =
    if c == b'-'
    then parse_magnitude type true signed_values big_endian cs
    else if c == b'+'
    then parse_magnitude type false signed_values big_endian cs
    else parse_magnitude type false signed_values big_endian (c ∷ cs)

-- `parse_scan_value` for the integer types
unfoldable pub parse_scan_value : Bytes → ValueScanType → Bool → Bool → Scanned Bytes
unfolding parse_signed trim
parse_scan_value text type signed_values big_endian =
    parse_signed type signed_values big_endian (trim text)

unfoldable pub three_way : Bool → Bool → ℤ
three_way less greater = if less then negsuc 0 else if greater then pos 1 else pos 0

-- `compare_scan_values` for the integer types
unfoldable pub compare_scan_values : Bytes → Bytes → ValueScanType → Bool → Bool → ℤ
unfolding three_way decode_scan_signed decode_scan_unsigned value_scan_width
compare_scan_values left right type signed_values big_endian =
    let width = value_scan_width type in
    if signed_values
    then (let l = decode_scan_signed left width big_endian in
        let r = decode_scan_signed right width big_endian in three_way (ltbℤ l r) (ltbℤ r l))
    else (let l = decode_scan_unsigned left width big_endian in
        let r = decode_scan_unsigned right width big_endian in three_way (ltb l r) (ltb r l))
