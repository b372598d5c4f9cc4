-- ===== src/Image.antt =====
-- src/backend/lldb/LldbEngineScanning.cpp: the ELF file of a module. The file is its bytes.
pub mod Segments
pub mod Strings
pub mod Runs
pub mod Complete
use mydbg.Base.{
  ℕ, zero, suc, ◌+◌, ◌-◌, ◌*◌, ◌/◌, ◌%◌, ◌^◌, ◌≤◌, ◌<◌, ◌≡◌, refl, sym, ap, ◌∙◌, ◌≢◌, ◌↔◌, ◌⊎◌, inl,
  inr, Bool, true, false, not, ◌&&◌, ◌||◌, Option, none, some, List, [], ◌∷◌, ◌++◌, map, append-nil,
  append_assoc, arith, leb, ltb, ◌==◌, if◌then◌else◌, leb→le, ltb→lt, lt→ltb, le→not-ltb, ==_iff,
  ==_refl, Bool-cases, Option-cases, List-cases, and-eq-true, and_then, length, get_elem?, get_or,
  set, take, drop, replicate, take_while, drop_while, all, find?, tabulate, All, length-append,
  length-drop, length-set, length-drop_while-le, length-tabulate, Stops, take_while-append,
  drop_while-append, all-append, all-take_while, take_while-all, drop_while-all,
}
use mydbg.Base.Bytes.{
  Bytes, codes, is_space, is_digit, is_alpha, is_xdigit, is_word, hex_value, equal, equal_iff,
  starts_with, starts_with-append, drop-append,
}
use mydbg.Base.Endian.{shift_in, or_in}

pub record ElfLoadSegment : Type 0 where
  pub file_offset : ℕ
  pub file_size : ℕ
  pub virtual_address : ℕ

pub record BinaryImage : Type 0 where
  pub bytes : Bytes
  pub load_segments : List ElfLoadSegment
  pub big_endian : Bool

pub data ImageError : Type 0 where
  too_large open_failed not_elf unsupported invalid_program_headers : ImageError

pub data Loaded : Type 0 where
  loaded : BinaryImage → Loaded
  refused : ImageError → Loaded

-- `image.bytes[index]`, behind a test of the size
abbrev pub byte_at : Bytes → ℕ → ℕ
byte_at bytes index = get_or bytes index 0

-- `decode_pointer` of src/backend/lldb/LldbEngineSnapshots.cpp
unfoldable pub decode_pointer : Bytes → (big_endian : Bool) → ℕ
unfolding shift_in or_in
decode_pointer bytes big_endian = if big_endian then shift_in 0 bytes else or_in 0 0 bytes

-- `read_value`
unfoldable pub read_value : Bytes → (big_endian : Bool) → (offset size : ℕ) → Option ℕ
unfolding decode_pointer
read_value bytes big_endian offset size =
    if size == 0 || ltb 8 size || ltb (length bytes) offset || ltb (length bytes - offset) size
    then none
    else some (decode_pointer (take size (drop offset bytes)) big_endian)

-- The offsets of the fields in files of 32 and of 64 bits
abbrev pub field_of : Bool → ℕ → ℕ → ℕ
field_of elf64 wide narrow = if elf64 then wide else narrow

-- Of one entry of the program headers: none where a field is not in the file, which ends the loop
unfoldable pub read_entry :
    Bytes → (big_endian elf64 : Bool) → (entry : ℕ) → Option (ℕ × ElfLoadSegment)
unfolding read_value
read_entry bytes big_endian elf64 entry =
    with_type (read_value bytes big_endian entry 4)
      (read_value bytes big_endian (entry + field_of elf64 8 4) (field_of elf64 8 4))
      (read_value bytes big_endian (entry + field_of elf64 16 8) (field_of elf64 8 4))
      (read_value bytes big_endian (entry + field_of elf64 32 16) (field_of elf64 8 4))
  where
    with_type : Option ℕ → Option ℕ → Option ℕ → Option ℕ → Option (ℕ × ElfLoadSegment)
    with_type (some kind) (some offset) (some address) (some size) =
        some (kind, record { file_offset = offset; file_size = size; virtual_address = address })
    with_type _ _ _ _ = none

-- `PT_LOAD` within the file
unfoldable pub accepts : Bytes → ℕ → ElfLoadSegment → Bool
accepts bytes kind segment =
    kind == 1
    && leb segment.file_offset (length bytes)
    && leb segment.file_size (length bytes - segment.file_offset)

unfoldable pub add_entry :
    Bytes → List ElfLoadSegment → Option (ℕ × ElfLoadSegment) → List ElfLoadSegment
unfolding accepts
add_entry bytes others none = []
add_entry bytes others (some (kind, segment)) =
    if accepts bytes kind segment then segment ∷ others else others

-- The loop over the entries, `remaining` of them from `index` on. An entry whose address does not fit
-- 64 bits ends it.
unfoldable pub read_segments :
    Bytes
    → (big_endian elf64 : Bool) → (program_offset entry_size remaining index : ℕ)
    → List ElfLoadSegment
unfolding read_entry add_entry
read_segments bytes big_endian elf64 program_offset entry_size zero index = []
read_segments bytes big_endian elf64 program_offset entry_size (suc remaining) index =
    let others =
      read_segments bytes big_endian elf64 program_offset entry_size remaining (index + 1) in
    if ltb ((2 ^ 64 - 1 - program_offset) / entry_size) index
    then []
    else add_entry bytes others
        (read_entry bytes big_endian elf64 (program_offset + index * entry_size))

-- The rest of `read_binary_image`, with the three fields of the header
unfoldable pub load_with :
    Bytes → (big_endian elf64 : Bool) → (program_offset entry_size count : Option ℕ) → Loaded
unfolding read_segments
load_with bytes big_endian elf64 (some program_offset) (some entry_size) (some count) =
    if entry_size == 0
    then refused invalid_program_headers
    else loaded (record {
      bytes = bytes;
      load_segments = read_segments bytes big_endian elf64 program_offset entry_size count 0;
      big_endian = big_endian;
    })
load_with bytes big_endian elf64 _ _ _ = refused invalid_program_headers

unfoldable pub read_program_headers : Bytes → (big_endian elf64 : Bool) → Loaded
unfolding read_value load_with
read_program_headers bytes big_endian elf64 =
    load_with bytes big_endian elf64
      (read_value bytes big_endian (field_of elf64 32 28) (field_of elf64 8 4))
      (read_value bytes big_endian (field_of elf64 54 42) 2)
      (read_value bytes big_endian (field_of elf64 56 44) 2)

-- `read_binary_image` behind the reading
unfoldable pub read_contents : Bytes → Loaded
unfolding read_program_headers starts_with
read_contents bytes =
    if ltb (length bytes) 16 || not (starts_with (0x7f ∷ codes "ELF") bytes)
    then refused not_elf
    else if not (byte_at bytes 4 == 2 || byte_at bytes 4 == 1)
        || not (byte_at bytes 5 == 1 || byte_at bytes 5 == 2)
    then refused unsupported
    else read_program_headers bytes (byte_at bytes 5 == 2) (byte_at bytes 4 == 2)

abbrev pub size_is_too_large : Option ℕ → Bool
size_is_too_large none = false
size_is_too_large (some size) = ltb (512 * 1024 * 1024) size

unfoldable pub open_contents : Option Bytes → Loaded
unfolding read_contents
open_contents none = refused open_failed
open_contents (some bytes) = read_contents bytes

-- `read_binary_image`, with what the system says of the size and what it reads, if anything
unfoldable pub read_binary_image : (file_size : Option ℕ) → (contents : Option Bytes) → Loaded
unfolding open_contents
read_binary_image file_size contents =
    if size_is_too_large file_size then refused too_large else open_contents contents

-- `std::find_if` over the segments
unfoldable pub segment_of : List ElfLoadSegment → ℕ → Option ElfLoadSegment
segment_of [] offset = none
segment_of (segment ∷ segments) offset =
    let others = segment_of segments offset in
    if leb segment.file_offset offset && ltb (offset - segment.file_offset) segment.file_size
    then some segment
    else others

unfoldable pub address_in : Option ElfLoadSegment → (file_offset : ℕ) → Option ℕ
address_in none file_offset = none
address_in (some segment) file_offset =
    let delta = file_offset - segment.file_offset in
    if ltb (2 ^ 64 - 1 - segment.virtual_address) delta
    then none
    else some (segment.virtual_address + delta)

unfoldable pub file_address_for_offset : BinaryImage → (file_offset : ℕ) → Option ℕ
unfolding segment_of address_in
file_address_for_offset image file_offset =
    address_in (segment_of image.load_segments file_offset) file_offset
