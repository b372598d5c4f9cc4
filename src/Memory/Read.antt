-- ===== src/Memory/Read.antt =====
-- src/app/MemoryInspection.cpp and `pointer_at` of src/app/AppActions.cpp: numbers and strings read
-- from the memory dump of a snapshot. A loop over `memory[offset + index]` is one over a slice.
pub mod Value
use mydbg.Base.{
  ℕ, zero, suc, ◌+◌, ◌-◌, ◌*◌, ◌/◌, ◌%◌, ◌^◌, ◌≤◌, ◌<◌, ◌≡◌, refl, sym, ap, ◌∙◌, ◌≢◌, ◌↔◌, ◌⊎◌, inl,
  inr, Bool, true, false, not, ◌&&◌, ◌||◌, Option, none, some, List, [], ◌∷◌, ◌++◌, map, append-nil,
  append_assoc, arith, leb, ltb, ◌==◌, if◌then◌else◌, leb→le, ltb→lt, lt→ltb, le→not-ltb, ==_iff,
  ==_refl, Bool-cases, Option-cases, List-cases, and-eq-true, length, get_elem?, get_or, set, take,
  drop, replicate, take_while, drop_while, all, find?, tabulate, All, length-append, length-drop,
  length-set, length-drop_while-le, length-tabulate, Stops, take_while-append, drop_while-append,
  all-append, all-take_while,
}
use mydbg.Base.Bytes.{
  Bytes, codes, is_space, is_digit, is_alpha, is_xdigit, is_word, hex_value, equal, equal_iff,
  starts_with, starts_with-append, drop-append,
}
use mydbg.Base.Endian.{shift_in, or_in}
use mydbg.Target.{SessionSnapshot}

-- `width` bytes of the dump from `offset` on
abbrev pub slice : SessionSnapshot → ℕ → ℕ → Bytes
slice snapshot offset width = take width (drop offset snapshot.memory)

unfoldable pub address_in_dump : SessionSnapshot → ℕ → ℕ → Bool
address_in_dump snapshot address width =
    leb snapshot.memory_base address
    && leb (address - snapshot.memory_base) (length snapshot.memory)
    && leb width (length snapshot.memory - (address - snapshot.memory_base))

-- the two loops that put the bytes together
unfoldable pub ordered_value : Bytes → Bytes → ℕ
unfolding equal shift_in or_in
ordered_value byte_order bytes =
    if equal byte_order (codes "big") then shift_in 0 bytes else or_in 0 0 bytes

unfoldable pub read_memory_unsigned : SessionSnapshot → ℕ → ℕ → Option ℕ
unfolding address_in_dump ordered_value
read_memory_unsigned snapshot address width =
    if width == 0 || ltb 8 width || not (address_in_dump snapshot address width)
    then none
    else some
        (ordered_value snapshot.byte_order (slice snapshot (address - snapshot.memory_base) width))

-- `memory.size()` is far below 2^64, so `offset + width` does not wrap.
unfoldable pub pointer_at : SessionSnapshot → ℕ → Option ℕ
unfolding ordered_value
pointer_at snapshot offset =
    let width = snapshot.address_byte_size in
    if width == 0 || ltb 8 width || ltb (length snapshot.memory) (offset + width)
    then none
    else some (ordered_value snapshot.byte_order (slice snapshot offset width))

abbrev printable : ℕ → ℕ
printable value = if leb 0x20 value && leb value 0x7e then value else b'.'

-- at most `room` characters, up to the first zero byte
unfoldable pub characters : ℕ → Bytes → Bytes
characters zero memory = []
characters (suc room) [] = []
characters (suc room) (value ∷ memory) =
    if value == 0 then [] else printable value ∷ characters room memory

-- `address_in_dump` has the default width 1.
unfoldable pub memory_inspection_string_at : SessionSnapshot → ℕ → Option Bytes
unfolding address_in_dump characters
memory_inspection_string_at snapshot address =
    if not (address_in_dump snapshot address 1)
    then none
    else some (characters 128 (drop (address - snapshot.memory_base) snapshot.memory))

pub record DebuggerMemoryPointer : Type 0 where
  pub width : ℕ
  pub full_pointer : Bool
  pub known_byte_order : Bool
  pub pointer : Option ℕ

-- `first` is an offset in the dump.
unfoldable pub debugger_memory_pointer : SessionSnapshot → ℕ → DebuggerMemoryPointer
unfolding pointer_at equal
debugger_memory_pointer snapshot first =
    let width = snapshot.address_byte_size in
    let full = (width == 4 || width == 8) && leb width (length snapshot.memory - first) in
    let known =
      equal snapshot.byte_order (codes "little") || equal snapshot.byte_order (codes "big") in
    record {
      width = width;
      full_pointer = full;
      known_byte_order = known;
      pointer = if full && known then pointer_at snapshot first else none;
    }
