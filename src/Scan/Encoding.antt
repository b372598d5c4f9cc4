-- ===== src/Scan/Encoding.antt =====
-- Scan values encoded and decoded again.
use mydbg.Base.{ℕ, ◌*◌, ◌/◌, ◌%◌, ◌^◌, ◌<◌, ◌≡◌, ◌∙◌, Bool, true, false, [], ◌∷◌, arith}
use mydbg.Base.Endian.{shift_in, shift_in-big_value}
use mydbg.Scan.Values.{
  ValueScanType, byte, word, dword, qword, float, double, value_scan_width, decode_scan_unsigned,
  encode_scan_unsigned,
}

low_byte : (value : ℕ) → value % 256 < 256
low_byte value = omega arith

bytes_1 : (value : ℕ) → shift_in 0 ((value % 256) ∷ []) ≡ value % 2 ^ 8
bytes_1 value =
    shift_in-big_value ((value % 256) ∷ []) (low_byte (value), tt) (omega arith) ∙ omega arith

bytes_2 : (value : ℕ) → shift_in 0 ((value / 256 % 256) ∷ (value % 256) ∷ []) ≡ value % 2 ^ 16
bytes_2 value =
    shift_in-big_value ((value / 256 % 256) ∷ (value % 256) ∷ [])
      (low_byte (value / 256), (low_byte (value), tt)) (omega arith)
    ∙ omega arith

bytes_4 :
    (value : ℕ)
    → shift_in 0 (
        (value / 256 / 256 / 256 % 256)
        ∷ (value / 256 / 256 % 256)
        ∷ (value / 256 % 256)
        ∷ (value % 256)
        ∷ [])
      ≡ value % 2 ^ 32
bytes_4 value =
    shift_in-big_value
      ((value / 256 / 256 / 256 % 256)
        ∷ (value / 256 / 256 % 256)
        ∷ (value / 256 % 256)
        ∷ (value % 256)
        ∷ [])
      (
        low_byte (value / 256 / 256 / 256),
        (low_byte (value / 256 / 256), (low_byte (value / 256), (low_byte (value), tt))),
      )
      (omega arith)
    ∙ omega arith

bytes_8 :
    (value : ℕ)
    → shift_in 0 (
        (value / 256 / 256 / 256 / 256 / 256 / 256 / 256 % 256)
        ∷ (value / 256 / 256 / 256 / 256 / 256 / 256 % 256)
        ∷ (value / 256 / 256 / 256 / 256 / 256 % 256)
        ∷ (value / 256 / 256 / 256 / 256 % 256)
        ∷ (value / 256 / 256 / 256 % 256)
        ∷ (value / 256 / 256 % 256)
        ∷ (value / 256 % 256)
        ∷ (value % 256)
        ∷ [])
      ≡ value % 2 ^ 64
bytes_8 value =
    shift_in-big_value
      ((value / 256 / 256 / 256 / 256 / 256 / 256 / 256 % 256)
        ∷ (value / 256 / 256 / 256 / 256 / 256 / 256 % 256)
        ∷ (value / 256 / 256 / 256 / 256 / 256 % 256)
        ∷ (value / 256 / 256 / 256 / 256 % 256)
        ∷ (value / 256 / 256 / 256 % 256)
        ∷ (value / 256 / 256 % 256)
        ∷ (value / 256 % 256)
        ∷ (value % 256)
        ∷ [])
      (
        low_byte (value / 256 / 256 / 256 / 256 / 256 / 256 / 256),
        (
          low_byte (value / 256 / 256 / 256 / 256 / 256 / 256),
          (
            low_byte (value / 256 / 256 / 256 / 256 / 256),
            (
              low_byte (value / 256 / 256 / 256 / 256),
              (
                low_byte (value / 256 / 256 / 256),
                (low_byte (value / 256 / 256), (low_byte (value / 256), (low_byte (value), tt))),
              ),
            ),
          ),
        ),
      )
      (omega arith)
    ∙ omega arith

-- A number that is encoded for a scan type decodes, in the same byte order, as the number modulo two
-- to the bits of the type.
pub decode_scan_unsigned-encode_scan_unsigned :
    (type : ValueScanType) (value : ℕ) (big_endian : Bool)
    → decode_scan_unsigned
        (encode_scan_unsigned value (value_scan_width type) big_endian)
        (value_scan_width type)
        big_endian
      ≡ value % 2 ^ (value_scan_width type * 8)
unfolding decode_scan_unsigned encode_scan_unsigned value_scan_width shift_in
decode_scan_unsigned-encode_scan_unsigned byte value true = bytes_1 value
decode_scan_unsigned-encode_scan_unsigned byte value false = bytes_1 value
decode_scan_unsigned-encode_scan_unsigned word value true = bytes_2 value
decode_scan_unsigned-encode_scan_unsigned word value false = bytes_2 value
decode_scan_unsigned-encode_scan_unsigned dword value true = bytes_4 value
decode_scan_unsigned-encode_scan_unsigned dword value false = bytes_4 value
decode_scan_unsigned-encode_scan_unsigned float value true = bytes_4 value
decode_scan_unsigned-encode_scan_unsigned float value false = bytes_4 value
decode_scan_unsigned-encode_scan_unsigned qword value true = bytes_8 value
decode_scan_unsigned-encode_scan_unsigned qword value false = bytes_8 value
decode_scan_unsigned-encode_scan_unsigned double value true = bytes_8 value
decode_scan_unsigned-encode_scan_unsigned double value false = bytes_8 value
