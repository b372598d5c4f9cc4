-- ===== src/Image/Strings.antt =====
-- src/backend/lldb/LldbEngineScanning.cpp: the texts of an ELF file, `extract_binary_strings`.
use mydbg.Base.{
  ℕ, zero, suc, ◌+◌, ◌*◌, Bool, true, false, not, ◌&&◌, ◌||◌, Option, List, [], ◌∷◌, ◌++◌, leb,
  ◌==◌, if◌then◌else◌, length, drop, take_while,
}
use mydbg.Base.Bytes.{Bytes, codes}
use mydbg.Image.{BinaryImage, file_address_for_offset}

pub record BinaryStringInfo : Type 0 where
  pub file_offset : ℕ
  pub file_address : Option ℕ
  pub encoding : Bytes
  pub value : Bytes

unfoldable pub is_binary_string_character : ℕ → Bool
is_binary_string_character value = value == 9 || (leb 0x20 value && leb value 0x7e)

-- A text that is found, with its offset
abbrev pub Found : Type 0
Found = ℕ × Bytes

-- The texts of bytes: `rest` is the file from `offset` on. Each round leaves the run that it found, or
-- one byte.
unfoldable pub ascii_texts : (minimum_length fuel offset : ℕ) → (rest : Bytes) → List Found
unfolding is_binary_string_character
ascii_texts minimum_length fuel offset [] = []
ascii_texts minimum_length zero offset (c ∷ cs) = []
ascii_texts minimum_length (suc fuel) offset (c ∷ cs) =
    let run = take_while is_binary_string_character (c ∷ cs) in
    let size = if length run == 0 then 1 else length run in
    let others = ascii_texts minimum_length fuel (offset + size) (drop size (c ∷ cs)) in
    if leb minimum_length (length run) then (offset, run) ∷ others else others

-- The characters of a run of 16-bit units, each with its other byte zero
unfoldable pub wide_run : (big_endian : Bool) → Bytes → Bytes
unfolding is_binary_string_character
wide_run big_endian [] = []
wide_run big_endian (a ∷ []) = []
wide_run big_endian (a ∷ b ∷ rest) =
    let others = wide_run big_endian rest in
    let character = if big_endian then b else a in
    let zero_byte = if big_endian then a else b in
    if not (zero_byte == 0) || not (is_binary_string_character character)
    then []
    else character ∷ others

unfoldable pub wide_texts :
    (big_endian : Bool) → (minimum_length fuel offset : ℕ) → (rest : Bytes) → List Found
unfolding wide_run
wide_texts big_endian minimum_length fuel offset [] = []
wide_texts big_endian minimum_length fuel offset (a ∷ []) = []
wide_texts big_endian minimum_length zero offset (a ∷ b ∷ rest) = []
wide_texts big_endian minimum_length (suc fuel) offset (a ∷ b ∷ rest) =
    let run = wide_run big_endian (a ∷ b ∷ rest) in
    let size = if length run == 0 then 2 else length run * 2 in
    let others =
      wide_texts big_endian minimum_length fuel (offset + size) (drop size (a ∷ b ∷ rest)) in
    if leb minimum_length (length run) then (offset, run) ∷ others else others

pub record Collected : Type 0 where
  pub results : List BinaryStringInfo
  pub total : ℕ
  pub truncated : Bool

-- The lambda `append`, for texts in their order
unfoldable pub append_texts : BinaryImage → (encoding : Bytes) → List Found → Collected → Collected
unfolding file_address_for_offset
append_texts image encoding [] collected = collected
append_texts image encoding ((offset, value) ∷ found) collected =
    append_texts image encoding found (
      if length collected.results == 50000
      then record { results = collected.results; total = collected.total + 1; truncated = true }
      else record {
        results =
            collected.results
            ++ (record {
              file_offset = offset;
              file_address = file_address_for_offset image offset;
              encoding = encoding;
              value = value;
            }
                ∷ []);
        total = collected.total + 1;
        truncated = collected.truncated;
      })

-- `extract_binary_strings` before its results are sorted
unfoldable pub collect_texts :
    BinaryImage → (minimum_length : ℕ) → (include_utf16 : Bool) → Collected
unfolding ascii_texts wide_texts append_texts
collect_texts image minimum_length include_utf16 =
    let size = length image.bytes in
    let name = if image.big_endian then codes "UTF-16BE" else codes "UTF-16LE" in
    let ascii =
      append_texts image (codes "ASCII") (ascii_texts minimum_length size 0 image.bytes)
        (record { results = []; total = 0; truncated = false }) in
    if include_utf16
    then append_texts image name
        (wide_texts image.big_endian minimum_length size 1 (drop 1 image.bytes))
        (append_texts image name (wide_texts image.big_endian minimum_length size 0 image.bytes)
          ascii)
    else ascii
