-- ===== src/Memory/Format/Order.antt =====
-- The hexadecimal memory copy read back, and the order of its bytes.
use mydbg.Base.{
  ◌&&◌, ◌==◌, suc, ◌≢◌, if◌then◌else◌, ℕ, ◌*◌, ◌/◌, ◌%◌, ◌≤◌, ◌<◌, ◌≡◌, refl, sym, ap, ◌∙◌, ◌⊎◌,
  inl, inr, Bool, true, false, some, [], ◌∷◌, append-nil, arith, ltb, length, get_or,
  length-tabulate,
}
use mydbg.Base.Bytes.{Bytes, codes, equal}
use mathlib.Core.Path.{subst}
use mydbg.Base.Endian.{AreBytes}
use mydbg.Base.Tabulate.{tabulate_ext, tabulate-get_or, All-tabulate, All-get_or}
use mydbg.Memory.Hex.{upper_digits, hex_byte, parse_hex_byte_text}
use mydbg.Memory.Hex.Digits.{upper_digits-GoodDigits, spaced, hex_text}
use mydbg.Memory.Hex.RoundTrip.{parse_hex_byte_text-hex_text}
use mydbg.Memory.Format.{
  MemoryByteOrder, as_stored, little_endian, big_endian, hex, can_format_memory_bytes, layout,
  reverse_words, source_index, reordered, append_bytes, all_bytes, with_layout, format_memory_bytes,
}

abbrev WordSize : ℕ → Type 0
WordSize w = (w ≡ 1) ⊎ (w ≡ 2) ⊎ (w ≡ 4) ⊎ (w ≡ 8)

each_word : (P : ℕ → Type 0) (w : ℕ) → P 1 → P 2 → P 4 → P 8 → WordSize w → P w
each_word P w a b c d (inl h) = subst P (sym h) a
each_word P w a b c d (inr (inl h)) = subst P (sym h) b
each_word P w a b c d (inr (inr (inl h))) = subst P (sym h) c
each_word P w a b c d (inr (inr (inr h))) = subst P (sym h) d

-- The bytes with each word of two, four or eight bytes written backwards
abbrev turned_pairs : Bytes → Bytes
turned_pairs (a ∷ b ∷ rest) = b ∷ a ∷ turned_pairs rest
turned_pairs bytes = bytes

abbrev turned_quads : Bytes → Bytes
turned_quads (a ∷ b ∷ c ∷ d ∷ rest) = d ∷ c ∷ b ∷ a ∷ turned_quads rest
turned_quads bytes = bytes

abbrev turned_octets : Bytes → Bytes
turned_octets (a ∷ b ∷ c ∷ d ∷ e ∷ f ∷ g ∷ h ∷ rest) =
    h ∷ g ∷ f ∷ e ∷ d ∷ c ∷ b ∷ a ∷ turned_octets rest
turned_octets bytes = bytes

abbrev turned : ℕ → Bytes → Bytes
turned w bytes =
    if w == 2
    then turned_pairs bytes
    else if w == 4
    then turned_quads bytes
    else if w == 8
    then turned_octets bytes
    else bytes

-- The bytes of a target in the order asked for: those of a big-endian target are turned for
-- little-endian words, and those of a little-endian target for big-endian words.
abbrev pub in_order : MemoryByteOrder → ℕ → Bytes → Bytes → Bytes
in_order as_stored w target bytes = bytes
in_order little_endian w target bytes = if equal target (codes "big") then turned w bytes else bytes
in_order big_endian w target bytes = if equal target (codes "little") then turned w bytes else bytes

reordered-pairs :
    (bytes : Bytes) → length bytes % 2 ≡ 0 → reordered true 2 bytes ≡ turned_pairs bytes
unfolding reordered
reordered-pairs [] m = refl
reordered-pairs (a ∷ []) m = absurd (omega (arith, m))
reordered-pairs (a ∷ b ∷ rest) m =
    let shifted : (k : ℕ) → source_index true 2 (suc (suc k)) ≡ suc (suc (source_index true 2 k)) =
      λ k. omega arith in
    ap (λ (t : Bytes). b ∷ a ∷ t)
      (tabulate_ext (length rest) _ _ (λ k l. ap (λ (i : ℕ). get_or (a ∷ b ∷ rest) i 0) (shifted k))
        ∙ reordered-pairs rest (omega (arith, m)))

reordered-quads :
    (bytes : Bytes) → length bytes % 4 ≡ 0 → reordered true 4 bytes ≡ turned_quads bytes
unfolding reordered
reordered-quads [] m = refl
reordered-quads (a ∷ []) m = absurd (omega (arith, m))
reordered-quads (a ∷ b ∷ []) m = absurd (omega (arith, m))
reordered-quads (a ∷ b ∷ c ∷ []) m = absurd (omega (arith, m))
reordered-quads (a ∷ b ∷ c ∷ d ∷ rest) m =
    let shifted : (k : ℕ)
        → source_index true 4 (suc (suc (suc (suc k))))
          ≡ suc (suc (suc (suc (source_index true 4 k)))) =
      λ k. omega arith in
    ap (λ (t : Bytes). d ∷ c ∷ b ∷ a ∷ t)
      (tabulate_ext (length rest) _ _
          (λ k l. ap (λ (i : ℕ). get_or (a ∷ b ∷ c ∷ d ∷ rest) i 0) (shifted k))
        ∙ reordered-quads rest (omega (arith, m)))

reordered-octets :
    (bytes : Bytes) → length bytes % 8 ≡ 0 → reordered true 8 bytes ≡ turned_octets bytes
unfolding reordered
reordered-octets [] m = refl
reordered-octets (a ∷ []) m = absurd (omega (arith, m))
reordered-octets (a ∷ b ∷ []) m = absurd (omega (arith, m))
reordered-octets (a ∷ b ∷ c ∷ []) m = absurd (omega (arith, m))
reordered-octets (a ∷ b ∷ c ∷ d ∷ []) m = absurd (omega (arith, m))
reordered-octets (a ∷ b ∷ c ∷ d ∷ e ∷ []) m = absurd (omega (arith, m))
reordered-octets (a ∷ b ∷ c ∷ d ∷ e ∷ f ∷ []) m = absurd (omega (arith, m))
reordered-octets (a ∷ b ∷ c ∷ d ∷ e ∷ f ∷ g ∷ []) m = absurd (omega (arith, m))
reordered-octets (a ∷ b ∷ c ∷ d ∷ e ∷ f ∷ g ∷ h ∷ rest) m =
    let shifted : (k : ℕ)
        → source_index true 8 (suc (suc (suc (suc (suc (suc (suc (suc k))))))))
          ≡ suc (suc (suc (suc (suc (suc (suc (suc (source_index true 8 k)))))))) =
      λ k. omega arith in
    ap (λ (t : Bytes). h ∷ g ∷ f ∷ e ∷ d ∷ c ∷ b ∷ a ∷ t)
      (tabulate_ext (length rest) _ _
          (λ k l. ap (λ (i : ℕ). get_or (a ∷ b ∷ c ∷ d ∷ e ∷ f ∷ g ∷ h ∷ rest) i 0) (shifted k))
        ∙ reordered-octets rest (omega (arith, m)))

reordered-turned :
    (turn : Bool) (w : ℕ) (bytes : Bytes)
    → WordSize w
    → (turn ≡ false) ⊎ (w ≡ 1) ⊎ (length bytes % w ≡ 0)
    → reordered (ltb 1 w && turn) w bytes ≡ (if turn then turned w bytes else bytes)
unfolding reordered
reordered-turned false w bytes h e =
    each_word (λ (v : ℕ). reordered (ltb 1 v && false) v bytes ≡ bytes) w (tabulate-get_or bytes 0)
      (tabulate-get_or bytes 0) (tabulate-get_or bytes 0) (tabulate-get_or bytes 0) h
reordered-turned true w bytes h e =
    each_word
      (λ (v : ℕ).
        (true ≡ false) ⊎ (v ≡ 1) ⊎ (length bytes % v ≡ 0)
        → reordered (ltb 1 v && true) v bytes ≡ turned v bytes)
      w (λ m. tabulate-get_or bytes 0) (λ m. reordered-pairs bytes (ground (arith, m)))
      (λ m. reordered-quads bytes (ground (arith, m)))
      (λ m. reordered-octets bytes (ground (arith, m))) h e

can_format-WordSize :
    (n : ℕ) (order : MemoryByteOrder) (word_size : ℕ) (target : Bytes)
    → can_format_memory_bytes n order word_size target ≡ true
    → WordSize word_size
unfolding can_format_memory_bytes
can_format-WordSize n order word_size target can = ground (arith, can)

can_format-whole :
    (n : ℕ) (order : MemoryByteOrder) (word_size : ℕ) (target : Bytes)
    → order ≢ as_stored
    → can_format_memory_bytes n order word_size target ≡ true
    → (word_size ≡ 1) ⊎ (n % word_size ≡ 0)
unfolding can_format_memory_bytes
can_format-whole n as_stored word_size target h can = absurd (h refl)
can_format-whole n little_endian word_size target h can = ground (arith, can)
can_format-whole n big_endian word_size target h can = ground (arith, can)

reordered-in_order :
    (bytes : Bytes) (order : MemoryByteOrder) (word_size : ℕ) (target : Bytes)
    → can_format_memory_bytes (length bytes) order word_size target ≡ true
    → reordered (reverse_words word_size order target) word_size bytes
      ≡ in_order order word_size target bytes
unfolding reverse_words
reordered-in_order bytes as_stored w target can =
    reordered-turned false w bytes (can_format-WordSize (length bytes) as_stored w target can)
      (inl refl)
reordered-in_order bytes little_endian w target can =
    reordered-turned (equal target (codes "big")) w bytes
      (can_format-WordSize (length bytes) little_endian w target can)
      (inr (can_format-whole (length bytes) little_endian w target (λ e. cc) can))
reordered-in_order bytes big_endian w target can =
    reordered-turned (equal target (codes "little")) w bytes
      (can_format-WordSize (length bytes) big_endian w target can)
      (inr (can_format-whole (length bytes) big_endian w target (λ e. cc) can))

reordered-AreBytes :
    (reversed : Bool) (w : ℕ) (bytes : Bytes)
    → AreBytes bytes
    → AreBytes (reordered reversed w bytes)
unfolding reordered
reordered-AreBytes reversed w bytes h =
    All-tabulate (λ (b : ℕ). b < 256) (length bytes) _
      (λ i l. All-get_or (λ (b : ℕ). b < 256) bytes (source_index reversed w i) 0 h (omega arith))

length-reordered :
    (reversed : Bool) (w : ℕ) (bytes : Bytes) → length (reordered reversed w bytes) ≡ length bytes
unfolding reordered
length-reordered reversed w bytes = length-tabulate (length bytes) _

append_bytes-spaced :
    (size : ℕ) (bytes : Bytes) → append_bytes (layout hex size) bytes ≡ spaced upper_digits bytes
unfolding append_bytes layout hex_byte
append_bytes-spaced size [] = refl
append_bytes-spaced size (b ∷ bytes) =
    ap (λ (t : Bytes). b' ' ∷ get_or upper_digits (b / 16) 0 ∷ get_or upper_digits (b % 16) 0 ∷ t)
      (append_bytes-spaced size bytes)

all_bytes-hex_text :
    (size : ℕ) (bytes : Bytes) → all_bytes (layout hex size) bytes ≡ hex_text upper_digits bytes
unfolding all_bytes layout hex_byte
all_bytes-hex_text size [] = refl
all_bytes-hex_text size (b ∷ bytes) =
    ap (λ (t : Bytes). get_or upper_digits (b / 16) 0 ∷ get_or upper_digits (b % 16) 0 ∷ t)
      (append_bytes-spaced size bytes)

parsed_text :
    (bytes : Bytes)
    → AreBytes bytes
    → 0 < length bytes
    → parse_hex_byte_text (hex_text upper_digits bytes) ≡ some bytes
parsed_text [] h l = absurd (omega arith)
parsed_text (b ∷ bytes) h l =
    parse_hex_byte_text-hex_text upper_digits upper_digits-GoodDigits b bytes h

fits_text : (max_size n : ℕ) → n * 3 ≤ max_size → ltb (max_size / 3) n ≡ false
fits_text max_size n h = ground arith

with_layout-hex :
    (max_size n : ℕ) (text : Bytes)
    → n * 3 ≤ max_size
    → with_layout max_size (layout hex n) n text ≡ some text
unfolding layout
with_layout-hex max_size n text room = ground (arith, append-nil text, fits_text max_size n room)

format_memory_bytes-hex :
    (max_size : ℕ) (bytes : Bytes) (order : MemoryByteOrder) (word_size : ℕ) (target : Bytes)
    → length bytes * 3 ≤ max_size
    → can_format_memory_bytes (length bytes) order word_size target ≡ true
    → format_memory_bytes max_size bytes hex order word_size target
      ≡ some
          (hex_text upper_digits (reordered (reverse_words word_size order target) word_size bytes))
unfolding format_memory_bytes can_format_memory_bytes layout
format_memory_bytes-hex max_size bytes order word_size target room can = rw can (
    with_layout-hex max_size (length bytes)
      (all_bytes (layout hex (length bytes))
        (reordered (reverse_words word_size order target) word_size bytes))
      room
    ∙ ap some (
        all_bytes-hex_text (length bytes)
          (reordered (reverse_words word_size order target) word_size bytes)))

some_bytes :
    (n : ℕ) (order : MemoryByteOrder) (word_size : ℕ) (target : Bytes)
    → can_format_memory_bytes n order word_size target ≡ true
    → 0 < n
unfolding can_format_memory_bytes
some_bytes n order word_size target can = ground (arith, can)

-- Where a text has room for it, and `can_format_memory_bytes` allows the order and the word size, the
-- hexadecimal copy of a memory of bytes is a text that reads back as the memory in the order asked
-- for: with each word of two, four or eight bytes backwards where the target is big-endian and
-- little-endian words are asked for, or the other way round, and as stored otherwise.
pub parse_hex_byte_text-format_memory_bytes :
    (max_size : ℕ) (bytes : Bytes) (order : MemoryByteOrder) (word_size : ℕ) (target : Bytes)
    → AreBytes bytes
    → length bytes * 3 ≤ max_size
    → can_format_memory_bytes (length bytes) order word_size target ≡ true
    → (text : Bytes) × (format_memory_bytes max_size bytes hex order word_size target ≡ some text)
      × (parse_hex_byte_text text ≡ some (in_order order word_size target bytes))
parse_hex_byte_text-format_memory_bytes max_size bytes order word_size target h room can = (
  hex_text upper_digits (reordered (reverse_words word_size order target) word_size bytes),
  format_memory_bytes-hex max_size bytes order word_size target room can,
  parsed_text (reordered (reverse_words word_size order target) word_size bytes)
        (reordered-AreBytes (reverse_words word_size order target) word_size bytes h)
        (omega (
          arith,
          some_bytes (length bytes) order word_size target can,
          length-reordered (reverse_words word_size order target) word_size bytes,
        ))
      ∙ ap some (reordered-in_order bytes order word_size target can),
)
