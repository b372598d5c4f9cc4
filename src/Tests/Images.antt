-- ===== src/Tests/Images.antt =====
-- Runs of the ELF file at concrete inputs.
use mydbg.Base.{◌+◌, ◌-◌, ◌<◌, ◌≡◌, refl, false, some, [], ◌∷◌, ◌++◌, arith, length, replicate, All}
use mydbg.Base.Bytes.{Bytes, codes}
use mydbg.Image.{ElfLoadSegment, BinaryImage, loaded, read_binary_image, file_address_for_offset}
use mydbg.Image.Segments.{InFile, FirstAt, read_binary_image-InFile, file_address_for_offset-InFile}
use mydbg.Image.Strings.{ascii_texts, is_binary_string_character}
use mydbg.Image.Runs.{IsText, ascii_texts-IsText}
use mydbg.Image.Complete.{Occurs, ascii_texts-Occurs}

-- A file of 64 bits with one segment: its 120 bytes, at 0x1000
abbrev elf_file : Bytes
elf_file =
    (0x7f ∷ codes "ELF")
    ++ (2 ∷ 1 ∷ [])
    ++ replicate 26 0
    ++ (64 ∷ [])
    ++ replicate 21 0
    ++ (56 ∷ 0 ∷ 1 ∷ 0 ∷ [])
    ++ replicate 6 0
    ++ (1 ∷ [])
    ++ replicate 15 0
    ++ (0 ∷ 16 ∷ [])
    ++ replicate 14 0
    ++ (120 ∷ [])
    ++ replicate 23 0

abbrev elf_image : BinaryImage
elf_image = record {
  bytes = elf_file;
  load_segments = record { file_offset = 0; file_size = 120; virtual_address = 4096 } ∷ [];
  big_endian = false;
}

accepted : read_binary_image (some 120) (some elf_file) ≡ loaded elf_image
unfolding read_binary_image
accepted = refl

read_binary_image-InFile_example :
    (some elf_file ≡ some elf_image.bytes) × All (InFile elf_image.bytes) elf_image.load_segments
read_binary_image-InFile_example =
    read_binary_image-InFile (some 120) (some elf_file) elf_image accepted

file_address_for_offset-InFile_example :
    (16 < length elf_image.bytes)
    × (segment : ElfLoadSegment) × FirstAt elf_image.load_segments 16 segment
    × (4112 ≡ segment.virtual_address + (16 - segment.file_offset))
unfolding file_address_for_offset
file_address_for_offset-InFile_example =
    file_address_for_offset-InFile (some 120) (some elf_file) elf_image 16 4112 accepted located
  where
    located : file_address_for_offset elf_image 16 ≡ some 4112
    located = refl

abbrev some_texts : Bytes
some_texts = 0 ∷ 1 ∷ codes "main" ++ (0 ∷ codes "x" ++ (200 ∷ []))

ascii_texts-IsText_example : All (IsText some_texts 2) (ascii_texts 2 9 0 some_texts)
ascii_texts-IsText_example = ascii_texts-IsText some_texts 2 9 0 [] some_texts refl refl

ascii_texts-Occurs_example : Occurs (2, codes "main") (ascii_texts 2 9 0 some_texts)
unfolding is_binary_string_character
ascii_texts-Occurs_example =
    ascii_texts-Occurs 2 9 0 (0 ∷ 1 ∷ []) (codes "main") (0 ∷ codes "x" ++ (200 ∷ [])) (omega arith)
      (omega arith) refl refl refl (omega arith)
