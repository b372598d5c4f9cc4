-- ===== src/Tests.antt =====
-- The properties at concrete inputs, and runs of the models.
mod Documents
mod Graphs
mod Images
mod Saved
mod Conditions
mod Sessions
mod Texts
use Prim.Native.Nat.{bit_and}
use mathlib.Core.Path.{◌≡◌, refl}
use mathlib.Core.Logic.{◌≢◌, ◌↔◌, ◌⊎◌, inl, inr}
use mathlib.Core.Bool.{Bool, true, false}
use mathlib.Core.Option.{Option, none, some}
use mathlib.Core.List.{List, [], ◌∷◌, ◌++◌}
use native.Mathlib.Omega.{arith}
use mydbg.Base.{ℕ, ◌<◌, ◌+◌, ◌%◌, ◌^◌, ◌*◌, replicate, length}
use mydbg.Base.Bytes.{equal, Bytes, codes}
use mydbg.Base.Endian.{AreBytes, little_value}
use mydbg.Target.{SessionSnapshot, MemoryRegionInfo, stopped}
use mydbg.Memory.Hex.{bytes_as_hex, parse_hex_byte_text}
use mydbg.Memory.Hex.RoundTrip.{parse_hex_byte_text-bytes_as_hex}
use mydbg.Memory.Format.{
  big_endian, little_endian, hex, reordered, reverse_words, format_memory_bytes,
  format_memory_integer,
}
use mydbg.Memory.Format.Order.{parse_hex_byte_text-format_memory_bytes}
use mydbg.Memory.Format.Integer.{interpreted, parse_value-format_memory_integer}
use mydbg.Memory.Hex.{parse_value}
use mydbg.Scan.Values.{word, value_scan_width, decode_scan_unsigned, encode_scan_unsigned}
use mydbg.Scan.Encoding.{decode_scan_unsigned-encode_scan_unsigned}

abbrev four_bytes : Bytes
four_bytes = 1 ∷ 2 ∷ 255 ∷ 16 ∷ []

abbrev four_are_bytes : AreBytes four_bytes
four_are_bytes = (omega arith, (omega arith, (omega arith, (omega arith, tt))))

parse_hex_byte_text-bytes_as_hex_example :
    parse_hex_byte_text (bytes_as_hex four_bytes) ≡ some four_bytes
parse_hex_byte_text-bytes_as_hex_example =
    parse_hex_byte_text-bytes_as_hex 1 (2 ∷ 255 ∷ 16 ∷ []) four_are_bytes

bytes_as_hex_run : bytes_as_hex four_bytes ≡ codes "01 02 ff 10"
unfolding bytes_as_hex
bytes_as_hex_run = refl

reordered_run : reordered true 4 four_bytes ≡ 16 ∷ 255 ∷ 2 ∷ 1 ∷ []
unfolding reordered
reordered_run = refl

parse_hex_byte_text-format_memory_bytes_example :
    (text : Bytes) × (format_memory_bytes 100 four_bytes hex big_endian 4 (codes "little")
      ≡ some text)
    × (parse_hex_byte_text text ≡ some (16 ∷ 255 ∷ 2 ∷ 1 ∷ []))
unfolding format_memory_bytes equal
parse_hex_byte_text-format_memory_bytes_example =
    parse_hex_byte_text-format_memory_bytes 100 four_bytes big_endian 4 (codes "little")
      four_are_bytes (omega arith) refl

parse_value-format_memory_integer_example :
    (text : Bytes) × (format_memory_integer four_bytes little_endian ≡ some text)
    × (parse_value text ≡ some (interpreted little_endian four_bytes))
parse_value-format_memory_integer_example =
    parse_value-format_memory_integer four_bytes little_endian four_are_bytes (omega arith)
      (omega arith) (λ e. absurd (grind (arith, e)))

decode_scan_unsigned-encode_scan_unsigned_example :
    decode_scan_unsigned
      (encode_scan_unsigned 70000 (value_scan_width word) true)
      (value_scan_width word)
      true
    ≡ 70000 % 2 ^ (value_scan_width word * 8)
decode_scan_unsigned-encode_scan_unsigned_example =
    decode_scan_unsigned-encode_scan_unsigned word 70000 true
