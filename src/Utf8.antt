-- ===== src/Utf8.antt =====
-- src/localization/Localization.cpp: UTF-8. The loop of `valid_utf8` is one step for each byte; a
-- sequence that the text ends in is refused at the end.
pub mod RoundTrip
use mydbg.Base.{
  ℕ, zero, suc, ◌+◌, ◌-◌, ◌*◌, ◌/◌, ◌%◌, ◌^◌, ◌≤◌, ◌<◌, ◌≡◌, refl, sym, ap, ◌∙◌, ◌≢◌, ◌↔◌, ◌⊎◌, inl,
  inr, Bool, true, false, not, ◌&&◌, ◌||◌, Option, none, some, List, [], ◌∷◌, ◌++◌, map, append-nil,
  append_assoc, arith, leb, ltb, ◌==◌, if◌then◌else◌, leb→le, ltb→lt, lt→ltb, le→not-ltb, ==_iff,
  ==_refl, Bool-cases, Option-cases, List-cases, and-eq-true, and_then, length, get_elem?, get_or,
  set, take, drop, replicate, take_while, drop_while, all, find?, tabulate, All, length-append,
  length-drop, length-set, length-drop_while-le, length-tabulate, Stops, take_while-append,
  drop_while-append, all-append, all-take_while, take_while-all, drop_while-all,
}
use mydbg.Base.Bytes.{
  Bytes, codes, is_space, is_digit, is_alpha, is_xdigit, is_word, hex_value, equal, equal_iff,
  starts_with, starts_with-append, drop-append,
}
use Prim.Native.Nat.{bit_and, bit_or}

pub data Pending : Type 0 where
  idle : Pending
  -- bytes to come, the bits so far, and the least code point of this length
  sequence : ℕ → ℕ → ℕ → Pending

unfoldable pub lead : ℕ → Option Pending
lead byte =
    if ltb byte 0x80
    then some idle
    else if bit_and byte 0xe0 == 0xc0
    then some (sequence 1 (bit_and byte 0x1f) 0x80)
    else if bit_and byte 0xf0 == 0xe0
    then some (sequence 2 (bit_and byte 0x0f) 0x800)
    else if bit_and byte 0xf8 == 0xf0
    then some (sequence 3 (bit_and byte 0x07) 0x10000)
    else none

abbrev pub refused : ℕ → ℕ → Bool
refused minimum codepoint =
    ltb codepoint minimum
    || ltb 0x10ffff codepoint
    || (leb 0xd800 codepoint && leb codepoint 0xdfff)

abbrev pub completed : ℕ → ℕ → ℕ → Option Pending
completed count codepoint minimum =
    if count == 1
    then (if refused minimum codepoint then none else some idle)
    else some (sequence (count - 1) codepoint minimum)

unfoldable pub advance : Pending → ℕ → Option Pending
unfolding lead
advance idle byte = lead byte
advance (sequence count codepoint minimum) byte =
    if not (bit_and byte 0xc0 == 0x80)
    then none
    else completed count (bit_or (codepoint * 64 % 2 ^ 32) (bit_and byte 0x3f)) minimum

unfoldable pub valid_from : Pending → Bytes → Bool
unfolding advance
valid_from idle [] = true
valid_from (sequence count codepoint minimum) [] = false
valid_from pending (byte ∷ bytes) = elim (advance pending byte) [
  | none ↦ false
  | some next ↦ valid_from next bytes
]

unfoldable pub valid_utf8 : Bytes → Bool
unfolding valid_from
valid_utf8 value = valid_from idle value

-- The bytes that `append_utf8` appends; `& 0x3f` is the remainder modulo 64.
unfoldable pub append_utf8 : ℕ → Bytes
append_utf8 value =
    if ltb value 0x80
    then value ∷ []
    else if ltb value 0x800
    then bit_or 0xc0 (value / 64) ∷ bit_or 0x80 (value % 64) ∷ []
    else if ltb value 0x10000
    then bit_or 0xe0 (value / 4096) ∷ bit_or 0x80 (value / 64 % 64) ∷ bit_or 0x80 (value % 64) ∷ []
    else bit_or 0xf0 (value / 262144)
      ∷ bit_or 0x80 (value / 4096 % 64)
      ∷ bit_or 0x80 (value / 64 % 64)
      ∷ bit_or 0x80 (value % 64)
      ∷ []
