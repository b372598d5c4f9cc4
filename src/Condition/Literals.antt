-- ===== src/Condition/Literals.antt =====
-- src/backend/conditions/BreakpointCondition.cpp: identifiers, numbers, strings, byte patterns and
-- comparison operators. A step returns what it read, if anything, and the parser's new state.
pub mod Plain
use mydbg.Base.{
  ℕ, Bool, true, false, ◌||◌, Option, none, some, List, [], ◌∷◌, ◌++◌, ltb, ◌==◌, if◌then◌else◌,
  length, drop, take_while, drop_while,
}
use mydbg.Base.Bytes.{Bytes, codes, is_digit, is_alpha, is_xdigit, is_word, starts_with}
use mydbg.Base.FromChars.{
  FromChars, parsed, invalid_argument, out_of_range, from_digits, is_base_digit,
}
use mydbg.Condition.Syntax.{
  CompareOperator, not_equal, less, less_equal, greater, greater_equal, NumericValue, number,
  register, numeric_literal_out_of_range, unsupported_string_escape, string_literal_too_long,
  unterminated_string_literal,
}
use mydbg.Condition.Scanner.{Parser, at, fail, skip_space, consume}

abbrev pub Step {ℓ} : Type ℓ → Type ℓ
Step A = Parser → Option A × Parser

-- the text behind an optional `$`
unfoldable pub skip_dollar : Bytes → Bytes
skip_dollar [] = []
skip_dollar (c ∷ cs) = if c == b'$' then cs else c ∷ cs

-- The identifier at `text`; the state `s` is restored where there is none. The `$` that the source
-- erases from the result is not part of `text`.
unfoldable pub identifier_at : Parser → Bytes → Option Bytes × Parser
unfolding is_alpha is_word
identifier_at s [] = (none, s)
identifier_at s (c ∷ cs) =
    if is_alpha c || c == b'_'
    then (some (c ∷ take_while is_word cs), at s (drop_while is_word cs))
    else (none, s)

unfoldable pub parse_identifier : Step Bytes
unfolding skip_space skip_dollar identifier_at
parse_identifier s = let s' = skip_space s in identifier_at s' (skip_dollar s'.rest)

abbrev pub begins_with_digit : Bytes → Bool
begins_with_digit [] = false
begins_with_digit (c ∷ cs) = is_digit c

-- `none` of the source is either no literal, with the position restored, or one out of range.
abbrev pub numeric_literal : Parser → FromChars → Option NumericValue × Parser
numeric_literal start (parsed value rest) = (some (number value), at start rest)
numeric_literal start invalid_argument = (none, start)
numeric_literal start (out_of_range rest) =
    (none, fail numeric_literal_out_of_range (at start rest))

abbrev pub has_hex_prefix : Bytes → Bool
has_hex_prefix text = starts_with (codes "0x") text || starts_with (codes "0X") text

unfoldable pub parse_number : Step NumericValue
unfolding from_digits is_digit is_xdigit starts_with fail
parse_number start =
    let hex = has_hex_prefix start.rest in
    let digits = if hex then drop 2 start.rest else start.rest in
    numeric_literal start (
      from_digits hex (take_while (is_base_digit hex) digits)
        (drop_while (is_base_digit hex) digits))

abbrev pub register_value : Option Bytes × Parser → Option NumericValue × Parser
register_value (none, s) = (none, s)
register_value (some name, s) = (some (register name), s)

unfoldable pub parse_numeric : Step NumericValue
unfolding skip_space is_digit parse_number parse_identifier
parse_numeric s =
    let s' = skip_space s in
    if begins_with_digit s'.rest then parse_number s' else register_value (parse_identifier s')

-- The byte that an escape stands for.
unfoldable pub unescape : ℕ → Option ℕ
unescape c =
    if c == b'n'
    then some 10
    else if c == b'r'
    then some 13
    else if c == b't'
    then some 9
    else if c == b'\\' || c == b'"'
    then some c
    else none

abbrev pub max_text : ℕ
max_text = 1024

-- The loop of `parse_string` behind the opening quote; the flag says that the byte before was a
-- backslash. The length is tested behind an escape only.
unfoldable pub string_loop : Parser → Bool → Bytes → Bytes → Option Bytes × Parser
unfolding unescape fail
string_loop s pending result [] = (none, fail unterminated_string_literal (at s []))
string_loop s true result (e ∷ cs) = elim (unescape e) [
  | none ↦ (none, fail unsupported_string_escape (at s cs))
  | some c ↦ elim (ltb max_text (length (result ++ c ∷ []))) [
    | true ↦ (none, fail string_literal_too_long (at s cs))
    | false ↦ string_loop s false (result ++ c ∷ []) cs
  ]
]
string_loop s false result (c ∷ cs) = elim (c == b'"') [
  | true ↦ (some result, at s cs)
  | false ↦ string_loop s (c == b'\\') (if c == b'\\' then result else result ++ c ∷ []) cs
]

abbrev pub string_at : Parser → Bytes → Option Bytes × Parser
string_at s [] = (none, s)
string_at s (c ∷ cs) = if c == b'"' then string_loop s false [] cs else (none, s)

unfoldable pub parse_string : Step Bytes
unfolding skip_space string_loop
parse_string s = let s' = skip_space s in string_at s' s'.rest

-- The operators in the order in which they are tried.
abbrev pub operators : List (Bytes × CompareOperator)
operators =
    (codes "===", CompareOperator.equal)
    ∷ (codes "==", CompareOperator.equal)
    ∷ (codes "!=", not_equal)
    ∷ (codes "<=", less_equal)
    ∷ (codes ">=", greater_equal)
    ∷ (codes "<", less)
    ∷ (codes ">", greater)
    ∷ []

unfoldable pub first_operator : List (Bytes × CompareOperator) → Step CompareOperator
unfolding consume
first_operator [] s = (none, s)
first_operator ((token, op) ∷ others) s =
    let (found, s') = consume token s in
    elim found [ true ↦ (some op, s') | false ↦ first_operator others s' ]

unfoldable pub parse_comparison_operator : Step CompareOperator
unfolding first_operator
parse_comparison_operator = first_operator operators
