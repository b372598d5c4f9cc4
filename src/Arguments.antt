-- ===== src/Arguments.antt =====
-- src/backend/lldb/LldbEngineUtilities.cpp: the texts of commands, split into arguments, numbers and
-- bytes.
pub mod Quoting
pub mod HexBytes
use mydbg.Base.{
  ℕ, zero, suc, ◌+◌, ◌-◌, ◌*◌, ◌/◌, ◌%◌, ◌^◌, ◌≤◌, ◌<◌, ◌≡◌, refl, sym, ap, ◌∙◌, ◌≢◌, ◌↔◌, ◌⊎◌, inl,
  inr, Bool, true, false, not, ◌&&◌, ◌||◌, Option, none, some, List, [], ◌∷◌, ◌++◌, map, append-nil,
  append_assoc, arith, leb, ltb, ◌==◌, if◌then◌else◌, leb→le, ltb→lt, lt→ltb, le→not-ltb, ==_iff,
  ==_refl, Bool-cases, Option-cases, List-cases, and-eq-true, and_then, length, get_elem?, get_or,
  set, take, drop, replicate, take_while, drop_while, all, find?, tabulate, All, length-append,
  length-drop, length-set, length-drop_while-le, length-tabulate, Stops, take_while-append,
  drop_while-append, all-append, all-take_while, take_while-all, drop_while-all,
}
use mydbg.Base.Bytes.{
  Bytes, codes, is_space, is_digit, is_alpha, is_xdigit, is_word, hex_value, equal, equal_iff,
  starts_with, starts_with-append, drop-append,
}
use mydbg.Base.FromChars.{FromChars, parsed, from_chars}
use mydbg.Scan.Values.{trim}
use mydbg.Memory.Hex.{whole, without_hex_prefix, parse_token}

-- The loop's variables; `quote` is 0 for '\0'.
pub record Splitter : Type 0 where
  pub arguments : List Bytes
  pub current : Bytes
  pub quote : ℕ
  pub escaped : Bool

abbrev pub is_empty : Bytes → Bool
is_empty [] = true
is_empty (c ∷ cs) = false

unfoldable pub push_current : Splitter → ℕ → Splitter
push_current s c = record s { current = s.current ++ (c ∷ []); escaped = false }

-- `arguments.push_back(std::move(current))` where there is something
unfoldable pub push_argument : Splitter → Splitter
push_argument s =
    if is_empty s.current
    then s
    else record s { arguments = s.arguments ++ (s.current ∷ []); current = [] }

unfoldable pub split_character : Splitter → ℕ → Splitter
unfolding push_current push_argument is_space
split_character s c =
    if s.escaped
    then push_current s c
    else if c == b'\\' && not (s.quote == 39)
    then record s { escaped = true }
    else if not (s.quote == 0)
    then (if c == s.quote then record s { quote = 0 } else push_current s c)
    else if c == 39 || c == b'"'
    then record s { quote = c }
    else if is_space c
    then push_argument s
    else push_current s c

unfoldable pub split_characters : Splitter → Bytes → Splitter
unfolding split_character
split_characters s [] = s
split_characters s (c ∷ cs) = split_characters (split_character s c) cs

-- A backslash at the end stands for itself.
unfoldable pub finish : Splitter → List Bytes
unfolding push_argument push_current
finish s = (push_argument (if s.escaped then push_current s b'\\' else s)).arguments

abbrev pub splitter : Splitter
splitter = record { arguments = []; current = []; quote = 0; escaped = false }

unfoldable pub split_arguments : Bytes → List Bytes
unfolding split_characters finish
split_arguments text = finish (split_characters splitter text)

abbrev parse_digits : Bool → Bytes → Option ℕ
unfolding from_chars
parse_digits hex [] = none
parse_digits hex (c ∷ cs) = whole (from_chars hex (c ∷ cs))

-- `parse_integer`
unfoldable pub parse_integer : Bytes → Option ℕ
unfolding parse_digits trim starts_with
parse_integer text =
    let number = trim text in
    if starts_with (codes "0x") number || starts_with (codes "0X") number
    then parse_digits true (drop 2 number)
    else parse_digits false number

-- The loop of `parse_hex_bytes` on a token is that of `parse_hex_byte_text`; two digits are at most
-- 255.
unfoldable pub parse_hex_tokens : List Bytes → Option Bytes
unfolding parse_token
parse_hex_tokens [] = some []
parse_hex_tokens (token ∷ tokens) =
    and_then (parse_token token)
      (λ bytes. and_then (parse_hex_tokens tokens) (λ others. some (bytes ++ others)))

abbrev non_empty : Bytes → Option Bytes
non_empty [] = none
non_empty (b ∷ bs) = some (b ∷ bs)

unfoldable pub parse_hex_bytes : Bytes → Option Bytes
unfolding split_arguments parse_hex_tokens
parse_hex_bytes text = and_then (parse_hex_tokens (split_arguments text)) non_empty
