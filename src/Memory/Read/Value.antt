-- ===== src/Memory/Read/Value.antt =====
-- Reading a number from the dump, against the value that its bytes stand for.
use mydbg.Base.{
  ℕ, zero, suc, ◌+◌, ◌-◌, ◌≤◌, ◌<◌, ◌≡◌, none, some, [], ◌∷◌, arith, if◌then◌else◌, length, take,
  drop,
}
use mydbg.Base.Bytes.{Bytes, codes, equal}
use mydbg.Base.Endian.{AreBytes, big_value, little_value, shift_in-big_value, or_in-little_value}
use mydbg.Target.{SessionSnapshot}
use mydbg.Memory.Read.{slice, address_in_dump, ordered_value, read_memory_unsigned}

All-take : (n : ℕ) (bs : Bytes) → AreBytes bs → AreBytes (take n bs)
All-take zero bs h = tt
All-take (suc n) [] h = tt
All-take (suc n) (b ∷ bs) (h, hs) = (h, All-take n bs hs)

All-drop : (n : ℕ) (bs : Bytes) → AreBytes bs → AreBytes (drop n bs)
All-drop zero bs h = h
All-drop (suc n) [] h = tt
All-drop (suc n) (b ∷ bs) (h, hs) = All-drop n bs hs

length-take-le : (n : ℕ) (bs : Bytes) → length (take n bs) ≤ n
length-take-le zero bs = omega arith
length-take-le (suc n) [] = omega arith
length-take-le (suc n) (b ∷ bs) = omega (arith, length-take-le n bs)

pub ordered_value-value :
    (byte_order bytes : Bytes)
    → AreBytes bytes
    → length bytes ≤ 8
    → ordered_value byte_order bytes
      ≡ (if equal byte_order (codes "big") then big_value bytes else little_value bytes)
unfolding ordered_value
ordered_value-value byte_order bytes h l =
    ground (arith, shift_in-big_value bytes h l, or_in-little_value bytes h l)

-- The addresses and widths that the dump can serve.
abbrev pub InDump : SessionSnapshot → ℕ → ℕ → Type 0
InDump snapshot address width =
    (0 < width)
    × (width ≤ 8)
    × (snapshot.memory_base ≤ address)
    × (address + width ≤ snapshot.memory_base + length snapshot.memory)

-- In a dump of bytes, a read of one to eight bytes that lie in the dump gives their value in the
-- byte order of the snapshot, highest byte first for "big" and lowest byte first otherwise. Every
-- other read gives nothing.
pub read_memory_unsigned-value :
    (snapshot : SessionSnapshot) (address width : ℕ)
    → AreBytes snapshot.memory
    → (InDump snapshot address width
        → read_memory_unsigned snapshot address width
          ≡ some (
              if equal snapshot.byte_order (codes "big")
              then big_value (slice snapshot (address - snapshot.memory_base) width)
              else little_value (slice snapshot (address - snapshot.memory_base) width)))
      × (¬ InDump snapshot address width → read_memory_unsigned snapshot address width ≡ none)
unfolding read_memory_unsigned address_in_dump
read_memory_unsigned-value snapshot address width h = (
  (λ (p, q, r, t). ground (
    arith,
    ordered_value-value snapshot.byte_order (slice snapshot (address - snapshot.memory_base) width)
        (All-take width _ (All-drop (address - snapshot.memory_base) snapshot.memory h))
        (omega
          (arith, length-take-le width (drop (address - snapshot.memory_base) snapshot.memory))),
  )),
  (λ outside. ground arith),
)
