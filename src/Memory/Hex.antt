-- ===== src/Memory/Hex.antt =====
-- `bytes_as_hex`, `parse_hex_byte_text` and `parse_value` of src/app/AppActions.cpp, and the digits of a
-- byte, which src/app/MemoryData.cpp shares.
pub mod Digits
pub mod RoundTrip
use mydbg.Base.{
  ℕ, zero, suc, ◌+◌, ◌-◌, ◌*◌, ◌/◌, ◌%◌, ◌^◌, ◌≤◌, ◌<◌, ◌≡◌, refl, sym, ap, ◌∙◌, ◌≢◌, ◌↔◌, ◌⊎◌, inl,
  inr, Bool, true, false, not, ◌&&◌, ◌||◌, Option, none, some, List, [], ◌∷◌, ◌++◌, map, append-nil,
  append_assoc, arith, leb, ltb, ◌==◌, if◌then◌else◌, leb→le, ltb→lt, lt→ltb, le→not-ltb, ==_iff,
  ==_refl, Bool-cases, Option-cases, List-cases, and-eq-true, and_then, length, get_elem?, get_or,
  set, take, drop, replicate, take_while, drop_while, all, find?, tabulate, All, length-append,
  length-drop, length-set, length-drop_while-le, length-tabulate, Stops, take_while-append,
  drop_while-append, all-append, all-take_while,
}
use mydbg.Base.Bytes.{
  Bytes, codes, is_space, is_digit, is_alpha, is_xdigit, is_word, hex_value, equal, equal_iff,
  starts_with, starts_with-append, drop-append,
}
use mydbg.Base.FromChars.{FromChars, parsed, invalid_argument, out_of_range, from_chars}

-- `digits[byte >> 4]` and `digits[byte & 0x0F]`
abbrev pub lower_digits : Bytes
lower_digits = codes "0123456789abcdef"

abbrev pub upper_digits : Bytes
upper_digits = codes "0123456789ABCDEF"

unfoldable pub hex_byte : Bytes → ℕ → Bytes
hex_byte digits byte = get_or digits (byte / 16) 0 ∷ get_or digits (byte % 16) 0 ∷ []

-- The loop appends: `text` is what is there so far.
unfoldable pub append_bytes_as_hex : Bytes → Bytes → Bytes
unfolding hex_byte
append_bytes_as_hex text [] = text
append_bytes_as_hex text (byte ∷ bytes) =
    append_bytes_as_hex
      (text ++ ((elim text [ [] ↦ [] | _ ∷ _ ↦ codes " " ]) ++ hex_byte lower_digits byte)) bytes

unfoldable pub bytes_as_hex : Bytes → Bytes
unfolding append_bytes_as_hex
bytes_as_hex bytes = append_bytes_as_hex [] bytes

-- `" \t\r\n,"`
unfoldable pub is_separator : ℕ → Bool
is_separator c = c == b' ' || c == 9 || c == 13 || c == 10 || c == b','

abbrev pub is_not_separator : ℕ → Bool
unfolding is_separator
is_not_separator c = not (is_separator c)

unfoldable pub without_hex_prefix : Bytes → Bytes
unfolding starts_with
without_hex_prefix token =
    if starts_with (codes "0x") token || starts_with (codes "0X") token then drop 2 token else token

-- `std::from_chars` on two characters, which has to read both
unfoldable pub hex_pair : ℕ → ℕ → Option ℕ
unfolding from_chars
hex_pair high low = elim (from_chars true (high ∷ low ∷ [])) [
  | parsed value [] ↦ some (value % 256)
  | _ ↦ none
]

unfoldable pub token_bytes : Bytes → Option Bytes
unfolding hex_pair
token_bytes [] = some []
token_bytes (high ∷ []) = none
token_bytes (high ∷ low ∷ token) =
    and_then (hex_pair high low)
      (λ byte. and_then (token_bytes token) (λ bytes. some (byte ∷ bytes)))

-- the length test and the loop on one token
unfoldable pub parse_token : Bytes → Option Bytes
unfolding token_bytes without_hex_prefix
parse_token token = elim (without_hex_prefix token) [ [] ↦ none | c ∷ cs ↦ token_bytes (c ∷ cs) ]

-- the bytes of a token before those of the tokens behind it
abbrev pub joined : Option Bytes → Option Bytes → Option Bytes
joined none others = none
joined (some bytes) none = none
joined (some bytes) (some others) = some (bytes ++ others)

-- Each round of the loop takes a token, so the length of the text is enough fuel.
unfoldable pub parse_tokens : ℕ → Bytes → Option Bytes
unfolding parse_token is_separator
parse_tokens zero text = some []
parse_tokens (suc fuel) text = elim (drop_while is_separator text) [
  | [] ↦ some []
  | c ∷ cs ↦
      joined (parse_token (take_while is_not_separator (c ∷ cs)))
        (parse_tokens fuel (drop_while is_not_separator (c ∷ cs)))
]

abbrev non_empty : Bytes → Option Bytes
non_empty [] = none
non_empty (b ∷ bs) = some (b ∷ bs)

unfoldable pub parse_hex_byte_text : Bytes → Option Bytes
unfolding parse_tokens
parse_hex_byte_text text = and_then (parse_tokens (length text) text) non_empty

-- `error != std::errc{} || end != text.data() + text.size()`
abbrev pub whole : FromChars → Option ℕ
whole (parsed value []) = some value
whole _ = none

unfoldable pub parse_value : Bytes → Option ℕ
unfolding from_chars starts_with
parse_value text =
    let text = drop_while (λ c. c == b' ') text in
    if starts_with (codes "0x") text || starts_with (codes "0X") text
    then whole (from_chars true (drop 2 text))
    else whole (from_chars false text)
