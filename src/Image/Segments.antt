-- ===== src/Image/Segments.antt =====
-- The segments of an ELF file that src/backend/lldb/LldbEngineScanning.cpp reads.
use mydbg.Base.{
  ℕ, zero, suc, ◌+◌, ◌-◌, ◌*◌, ◌≤◌, ◌<◌, ◌≡◌, refl, sym, ap, ◌∙◌, ◌⊎◌, Bool, true, false, ◌&&◌,
  Option, none, some, List, [], ◌∷◌, ◌++◌, arith, leb, ltb, ◌==◌, if◌then◌else◌, length, get_or,
  All,
}
use mydbg.Base.Bytes.{Bytes}
use mathlib.Core.Path.{subst}
use mydbg.Image.{
  ElfLoadSegment, BinaryImage, loaded, refused, field_of, read_value, read_entry, accepts,
  add_entry, read_segments, load_with, read_program_headers, read_contents, open_contents,
  size_is_too_large, too_large, not_elf, unsupported, read_binary_image, segment_of, address_in,
  file_address_for_offset,
}

-- The segment's bytes are in the file.
abbrev pub InFile : Bytes → ElfLoadSegment → Type 0
InFile bytes segment = segment.file_offset + segment.file_size ≤ length bytes

accepts-InFile :
    (bytes : Bytes) (kind : ℕ) (segment : ElfLoadSegment)
    → accepts bytes kind segment ≡ true
    → InFile bytes segment
unfolding accepts
accepts-InFile bytes kind segment h = ground (arith, h)

add_entry-InFile :
    (bytes : Bytes) (others : List ElfLoadSegment)
    → All (InFile bytes) others
    → (entry : Option (ℕ × ElfLoadSegment)) → All (InFile bytes) (add_entry bytes others entry)
unfolding add_entry
add_entry-InFile bytes others h none = tt
add_entry-InFile bytes others h (some (kind, segment)) =
    ground (arith, h, accepts-InFile bytes kind segment)

read_segments-InFile :
    (bytes : Bytes) (big_endian elf64 : Bool) (program_offset entry_size remaining index : ℕ)
    → All
        (InFile bytes)
        (read_segments bytes big_endian elf64 program_offset entry_size remaining index)
unfolding read_segments
read_segments-InFile bytes big_endian elf64 program_offset entry_size zero index = tt
read_segments-InFile bytes big_endian elf64 program_offset entry_size (suc remaining) index =
    let others =
      read_segments-InFile bytes big_endian elf64 program_offset entry_size remaining (index + 1) in
    let entry = read_entry bytes big_endian elf64 (program_offset + index * entry_size) in
    ground (arith, add_entry-InFile bytes _ others entry)

load_with-InFile :
    (bytes : Bytes) (big_endian elf64 : Bool) (offset entry_size count : Option ℕ)
    (image : BinaryImage)
    → load_with bytes big_endian elf64 offset entry_size count ≡ loaded image
    → (image.bytes ≡ bytes) × All (InFile image.bytes) image.load_segments
unfolding load_with
load_with-InFile bytes big_endian elf64 none entry_size count image e = cc
load_with-InFile bytes big_endian elf64 (some offset) none count image e = cc
load_with-InFile bytes big_endian elf64 (some offset) (some entry_size) none image e = cc
load_with-InFile bytes big_endian elf64 (some offset) (some entry_size) (some count) image e =
    ground (arith, e, read_segments-InFile bytes big_endian elf64 offset entry_size count 0)

read_program_headers-InFile :
    (bytes : Bytes) (big_endian elf64 : Bool) (image : BinaryImage)
    → read_program_headers bytes big_endian elf64 ≡ loaded image
    → (image.bytes ≡ bytes) × All (InFile image.bytes) image.load_segments
unfolding read_program_headers
read_program_headers-InFile bytes big_endian elf64 image e =
    load_with-InFile bytes big_endian elf64
      (read_value bytes big_endian (field_of elf64 32 28) (field_of elf64 8 4))
      (read_value bytes big_endian (field_of elf64 54 42) 2)
      (read_value bytes big_endian (field_of elf64 56 44) 2) image e

read_contents-InFile :
    (bytes : Bytes) (image : BinaryImage)
    → read_contents bytes ≡ loaded image
    → (image.bytes ≡ bytes) × All (InFile image.bytes) image.load_segments
unfolding read_contents
read_contents-InFile bytes image e = accepted _ _ (get_or bytes 5 0 == 2) (get_or bytes 4 0 == 2) e
  where
    accepted :
        (no_elf other big_endian elf64 : Bool)
        → (if no_elf
            then refused not_elf
            else if other
            then refused unsupported
            else read_program_headers bytes big_endian elf64)
          ≡ loaded image
        → (image.bytes ≡ bytes) × All (InFile image.bytes) image.load_segments
    accepted true other big_endian elf64 e = cc
    accepted false true big_endian elf64 e = cc
    accepted false false big_endian elf64 e =
        read_program_headers-InFile bytes big_endian elf64 image e

-- A file that is accepted is the one that was read, and each of its segments lies within it.
pub read_binary_image-InFile :
    (file_size : Option ℕ) (contents : Option Bytes) (image : BinaryImage)
    → read_binary_image file_size contents ≡ loaded image
    → (contents ≡ some image.bytes) × All (InFile image.bytes) image.load_segments
unfolding read_binary_image open_contents
read_binary_image-InFile file_size contents image e =
    let (bytes, h, read) = opened (size_is_too_large file_size) contents e in
    let (same, segments) = read_contents-InFile bytes image read in
    (h ∙ ap some (sym same), segments)
  where
    opened :
        (large : Bool) (contents : Option Bytes)
        → (if large then refused too_large else open_contents contents) ≡ loaded image
        → (bytes : Bytes) × (contents ≡ some bytes) × (read_contents bytes ≡ loaded image)
    opened true contents e = cc
    opened false none e = cc
    opened false (some bytes) e = (bytes, refl, e)

-- The segment is the first with the offset.
abbrev pub FirstAt : List ElfLoadSegment → ℕ → ElfLoadSegment → Type 0
FirstAt segments offset segment =
    (before after : List ElfLoadSegment) × (segments ≡ before ++ (segment ∷ after))
    × All (λ s. (offset < s.file_offset) ⊎ (s.file_offset + s.file_size ≤ offset)) before
    × (segment.file_offset ≤ offset)
    × (offset < segment.file_offset + segment.file_size)

module _ (s : ElfLoadSegment) (offset : ℕ) where
  inside :
      (leb s.file_offset offset && ltb (offset - s.file_offset) s.file_size) ≡ true
      → (s.file_offset ≤ offset) × (offset < s.file_offset + s.file_size)
  inside h = ground (arith, h)

  outside :
      (leb s.file_offset offset && ltb (offset - s.file_offset) s.file_size) ≡ false
      → (offset < s.file_offset) ⊎ (s.file_offset + s.file_size ≤ offset)
  outside h = ground (arith, h)

some_inj : {a b : ElfLoadSegment} → some a ≡ some b → a ≡ b
some_inj e = cc

segment_of-FirstAt :
    (segments : List ElfLoadSegment) (offset : ℕ) (segment : ElfLoadSegment)
    → segment_of segments offset ≡ some segment
    → FirstAt segments offset segment
unfolding segment_of
segment_of-FirstAt [] offset segment e = cc
segment_of-FirstAt (s ∷ segments) offset segment e =
    found (leb s.file_offset offset && ltb (offset - s.file_offset) s.file_size) refl e
      (segment_of-FirstAt segments offset segment)
  where
    found :
        (here : Bool)
        → (leb s.file_offset offset && ltb (offset - s.file_offset) s.file_size) ≡ here
        → (if here then some s else segment_of segments offset) ≡ some segment
        → (segment_of segments offset ≡ some segment → FirstAt segments offset segment)
        → FirstAt (s ∷ segments) offset segment
    found true h e later =
        let same = some_inj e in
        let (low, high) = inside s offset h in
        ([], segments, ap (λ x. x ∷ segments) same, tt, rw (sym same) low, rw (sym same) high)
    found false h e later =
        let (before, after, same, none_before, low, high) = later e in
        (s ∷ before, after, ap (λ xs. s ∷ xs) same, (outside s offset h, none_before), low, high)

address_in-some :
    (o : Option ElfLoadSegment) (offset address : ℕ)
    → address_in o offset ≡ some address
    → (segment : ElfLoadSegment) × (o ≡ some segment)
      × (address ≡ segment.virtual_address + (offset - segment.file_offset))
unfolding address_in
address_in-some none offset address e = cc
address_in-some (some segment) offset address e = (segment, refl, ground (arith, e))

All-middle :
    (P : ElfLoadSegment → Type 0) (before after : List ElfLoadSegment) (x : ElfLoadSegment)
    → All P (before ++ (x ∷ after))
    → P x
All-middle P [] after x (p, _) = p
All-middle P (y ∷ before) after x (_, ps) = All-middle P before after x ps

-- An address that an accepted file has for an offset is that of a segment with this offset: the
-- first of the file, and the offset lies in the file. The address is as far from the segment's as the
-- offset is from the beginning of the segment's bytes.
pub file_address_for_offset-InFile :
    (file_size : Option ℕ) (contents : Option Bytes) (image : BinaryImage) (offset address : ℕ)
    → read_binary_image file_size contents ≡ loaded image
    → file_address_for_offset image offset ≡ some address
    → (offset < length image.bytes)
      × (segment : ElfLoadSegment) × FirstAt image.load_segments offset segment
      × (address ≡ segment.virtual_address + (offset - segment.file_offset))
unfolding file_address_for_offset
file_address_for_offset-InFile file_size contents image offset address read e =
    let (segment, found, is_address) =
      address_in-some (segment_of image.load_segments offset) offset address e in
    let (before, after, same, none_before, low, high) =
      segment_of-FirstAt image.load_segments offset segment found in
    let (_, in_file) = read_binary_image-InFile file_size contents image read in
    let here =
      All-middle (InFile image.bytes) before after segment
        (subst (All (InFile image.bytes)) same in_file) in
    (omega (arith, high, here), segment, (before, after, same, none_before, low, high), is_address)
