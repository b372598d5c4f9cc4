-- ===== src/Memory/Format.antt =====
-- src/app/MemoryData.cpp: memory as text to copy. `max_size` stands for the `max_size()` of a string.
pub mod Order
pub mod Integer
use mydbg.Base.{
  ℕ, zero, suc, ◌+◌, ◌-◌, ◌*◌, ◌/◌, ◌%◌, ◌^◌, ◌≤◌, ◌<◌, ◌≡◌, refl, sym, ap, ◌∙◌, ◌≢◌, ◌↔◌, ◌⊎◌, inl,
  inr, Bool, true, false, not, ◌&&◌, ◌||◌, Option, none, some, List, [], ◌∷◌, ◌++◌, map, append-nil,
  append_assoc, arith, leb, ltb, ◌==◌, if◌then◌else◌, leb→le, ltb→lt, lt→ltb, le→not-ltb, ==_iff,
  ==_refl, Bool-cases, Option-cases, List-cases, and-eq-true, and_then, length, get_elem?, get_or,
  set, take, drop, replicate, take_while, drop_while, all, find?, tabulate, All, length-append,
  length-drop, length-set, length-drop_while-le, length-tabulate, Stops, take_while-append,
  drop_while-append, all-append, all-take_while,
}
use mydbg.Base.Bytes.{
  Bytes, codes, is_space, is_digit, is_alpha, is_xdigit, is_word, hex_value, equal, equal_iff,
  starts_with, starts_with-append, drop-append,
}
use mydbg.Memory.Hex.{upper_digits, hex_byte}

pub data MemoryByteOrder : Type 0 where
  as_stored little_endian big_endian : MemoryByteOrder

pub data MemoryCopyFormat : Type 0 where
  hex escaped c_array python_bytearray javascript_uint8_array rust_array : MemoryCopyFormat

abbrev known_order : Bytes → Bool
known_order target_byte_order =
    equal target_byte_order (codes "little") || equal target_byte_order (codes "big")

abbrev order_possible : MemoryByteOrder → ℕ → ℕ → Bytes → Bool
order_possible as_stored byte_count word_size target = true
order_possible little_endian byte_count word_size target =
    word_size == 1 || (byte_count % word_size == 0 && known_order target)
order_possible big_endian byte_count word_size target =
    word_size == 1 || (byte_count % word_size == 0 && known_order target)

abbrev word_size_known : ℕ → Bool
word_size_known word_size = word_size == 1 || word_size == 2 || word_size == 4 || word_size == 8

unfoldable pub can_format_memory_bytes : ℕ → MemoryByteOrder → ℕ → Bytes → Bool
unfolding equal
can_format_memory_bytes byte_count order word_size target =
    if byte_count == 0 || not (word_size_known word_size)
    then false
    else order_possible order byte_count word_size target

-- `std::to_chars` in base 10; a number has fewer digits than its value and one more.
unfoldable pub decimal_digits : ℕ → ℕ → Bytes → Bytes
decimal_digits zero n text = text
decimal_digits (suc fuel) n text =
    let longer = decimal_digits fuel (n / 10) ((b'0' + n % 10) ∷ text) in
    if ltb n 10 then (b'0' + n) ∷ text else longer

unfoldable pub to_chars : ℕ → Bytes
unfolding decimal_digits
to_chars n = decimal_digits (suc n) n []

-- The texts that the `switch` on the format sets
pub record Layout : Type 0 where
  pub prefix : Bytes
  pub suffix : Bytes
  pub byte_prefix : Bytes
  pub separator : Bytes
  pub array_size : Bytes
  pub array_size_suffix : Bytes

abbrev array_layout : Bytes → Bytes → Layout
array_layout before behind = record {
  prefix = before;
  suffix = behind;
  byte_prefix = codes "0x";
  separator = codes ", ";
  array_size = [];
  array_size_suffix = [];
}

unfoldable pub layout : MemoryCopyFormat → ℕ → Layout
unfolding to_chars
layout hex size = record {
  prefix = [];
  suffix = [];
  byte_prefix = [];
  separator = codes " ";
  array_size = [];
  array_size_suffix = [];
}
layout escaped size = record {
  prefix = codes "\"";
  suffix = codes "\"";
  byte_prefix = codes "\\x";
  separator = [];
  array_size = [];
  array_size_suffix = [];
}
layout c_array size = array_layout (codes "unsigned char data[] = {") (codes "};")
layout python_bytearray size = array_layout (codes "data = bytearray([") (codes "])")
layout javascript_uint8_array size =
    array_layout (codes "const data = new Uint8Array([") (codes "]);")
layout rust_array size = record {
  prefix = codes "let data: [u8; ";
  suffix = codes "];";
  byte_prefix = codes "0x";
  separator = codes ", ";
  array_size = to_chars size;
  array_size_suffix = codes "] = [";
}

-- the order asked for is the other one than the target's
abbrev other_order : MemoryByteOrder → Bytes → Bool
other_order as_stored target = false
other_order little_endian target = equal target (codes "big")
other_order big_endian target = equal target (codes "little")

abbrev pub reverse_words : ℕ → MemoryByteOrder → Bytes → Bool
unfolding equal
reverse_words word_size order target = ltb 1 word_size && other_order order target

-- `index - index % word_size + (word_size - 1 - index % word_size)`
abbrev pub source_index : Bool → ℕ → ℕ → ℕ
source_index reversed word_size index =
    if reversed then index - index % word_size + (word_size - 1 - index % word_size) else index

-- `bytes[source]` for each index
unfoldable pub reordered : Bool → ℕ → Bytes → Bytes
reordered reversed word_size bytes =
    tabulate (length bytes) (λ index. get_or bytes (source_index reversed word_size index) 0)

-- The loop behind its first round
unfoldable pub append_bytes : Layout → Bytes → Bytes
unfolding hex_byte
append_bytes shape [] = []
append_bytes shape (byte ∷ bytes) =
    shape.separator
    ++ (shape.byte_prefix ++ (hex_byte upper_digits byte ++ append_bytes shape bytes))

unfoldable pub all_bytes : Layout → Bytes → Bytes
unfolding append_bytes hex_byte
all_bytes shape [] = []
all_bytes shape (byte ∷ bytes) =
    shape.byte_prefix ++ (hex_byte upper_digits byte ++ append_bytes shape bytes)

abbrev pub overhead : Layout → ℕ
overhead shape =
    length shape.prefix
    + length shape.array_size
    + length shape.array_size_suffix
    + length shape.suffix

abbrev pub stride : Layout → ℕ
stride shape = length shape.byte_prefix + 2 + length shape.separator

abbrev pub with_layout : ℕ → Layout → ℕ → Bytes → Option Bytes
with_layout max_size shape count text =
    if ltb ((max_size - overhead shape) / stride shape) count
    then none
    else some
        (shape.prefix ++ (shape.array_size ++ (shape.array_size_suffix ++ (text ++ shape.suffix))))

unfoldable pub format_memory_bytes :
    ℕ → Bytes → MemoryCopyFormat → MemoryByteOrder → ℕ → Bytes → Option Bytes
unfolding can_format_memory_bytes layout reordered all_bytes
format_memory_bytes max_size bytes format order word_size target =
    if not (can_format_memory_bytes (length bytes) order word_size target)
    then none
    else with_layout max_size (layout format (length bytes)) (length bytes) (
        all_bytes (layout format (length bytes))
          (reordered (reverse_words word_size order target) word_size bytes))

-- the loop of `format_memory_integer`
unfoldable pub hex_digits : Bytes → Bytes
unfolding hex_byte
hex_digits [] = []
hex_digits (byte ∷ bytes) = hex_byte upper_digits byte ++ hex_digits bytes

-- `bytes[bytes.size() - 1 - index]` for each index
unfoldable pub backwards : Bytes → Bytes
backwards bytes = tabulate (length bytes) (λ index. get_or bytes (length bytes - 1 - index) 0)

unfoldable pub integer_text : MemoryByteOrder → Bytes → Option Bytes
unfolding hex_digits backwards
integer_text as_stored bytes = none
integer_text little_endian bytes = some (codes "0x" ++ hex_digits (backwards bytes))
integer_text big_endian bytes = some (codes "0x" ++ hex_digits bytes)

unfoldable pub format_memory_integer : Bytes → MemoryByteOrder → Option Bytes
unfolding integer_text
format_memory_integer bytes interpretation =
    if length bytes == 0 || ltb 8 (length bytes) then none else integer_text interpretation bytes
