-- ===== src/Condition/Parser.antt =====
-- src/backend/conditions/BreakpointCondition.cpp: the recursive descent of class `Parser`. A node
-- parser returns `null` where the source returns `nullptr`; the model has fuel for the depth of the
-- recursion and for the rounds of each loop, and `out_of_fuel` has no counterpart in the source.
use mydbg.Base.{
  ℕ, zero, suc, Bool, true, false, not, ◌||◌, Option, none, some, [], ◌∷◌, if◌then◌else◌,
}
use mydbg.Base.Bytes.{Bytes, codes, equal}
use mydbg.Condition.Syntax.{
  CompareOperator, NumericValue, ConditionNode, literal, truthy, negation, conjunction, disjunction,
  compare, masked_compare, string_compare, Key, expected_open_after_if,
  expected_close_after_condition, unexpected_input, expected_close, expected_expression,
  expected_comparison_value, expected_open_after_function, expected_value_at,
  expected_value_at_address, expected_comparison_comma, expected_string_and_close,
}
use mydbg.Condition.Scanner.{
  Parser, at, fail, skip_space, consume, consume_keyword, enter_nested, leave_nested,
}
use mydbg.Condition.Literals.{
  parse_identifier, parse_numeric, parse_string, parse_comparison_operator,
}
use mydbg.Condition.Pattern.{decode_pattern, Decoded, decoded, refused}

pub data Outcome : Type 0 where
  node : ConditionNode → Parser → Outcome
  null : Parser → Outcome
  out_of_fuel : Outcome

abbrev pub NodeParser : Type 0
NodeParser = Parser → Outcome

abbrev pub and_then : Outcome → (ConditionNode → NodeParser) → Outcome
and_then (node n s) f = f n s
and_then (null s) f = null s
and_then out_of_fuel f = out_of_fuel

-- `leave_nested` runs whatever the operand returned.
abbrev pub leaving : Outcome → Outcome
leaving (node n s) = node n (leave_nested s)
leaving (null s) = null (leave_nested s)
leaving out_of_fuel = out_of_fuel

-- `if (!consume(token)) { fail(key); return nullptr; }` behind a node
unfoldable pub expect_behind : Bytes → Key → ConditionNode → NodeParser
unfolding consume fail
expect_behind token key n s =
    let (found, s') = consume token s in if found then node n s' else null (fail key s')

abbrev strcmp : Bytes
strcmp = codes "strcmp"

-- the node of a decoded argument
unfoldable pub masked_node : NumericValue → Parser → Decoded → Outcome
unfolding fail
masked_node address s (decoded expected mask) = node (masked_compare address expected mask) s
masked_node address s (refused key) = null (fail key s)

unfoldable pub memory_node : Bytes → NumericValue → Bytes → NodeParser
unfolding equal masked_node decode_pattern
memory_node name address string s =
    if equal name strcmp
    then node (string_compare address string) s
    else masked_node address s (decode_pattern string)

abbrev expected_string : Parser → Outcome
expected_string s = null (fail expected_string_and_close s)

-- from the string on; `fail` keeps a message that is there already
unfoldable pub string_argument : Bytes → NumericValue → Option Bytes × Parser → Outcome
unfolding consume fail memory_node
string_argument name address (none, s) = expected_string s
string_argument name address (some string, s) =
    let (closed, s') = consume (codes ")") s in
    if closed then memory_node name address string s' else expected_string s'

-- from the separator on
unfoldable pub separator : Bytes → NumericValue → NodeParser
unfolding consume fail equal parse_string string_argument
separator name address s =
    let (comma, s₁) = consume (codes ",") s in
    if comma
    then string_argument name address (parse_string s₁)
    else if equal name strcmp
    then (let (equals, s₂) = consume (codes "==") s₁ in
        if equals
        then string_argument name address (parse_string s₂)
        else null (fail expected_comparison_comma s₂))
    else null (fail expected_comparison_comma s₁)

-- from the address on
unfoldable pub address_argument : Bytes → Option NumericValue × Parser → Outcome
unfolding consume fail separator
address_argument name (none, s) = null (fail expected_value_at_address s)
address_argument name (some address, s) =
    let (closed, s') = consume (codes ")") s in
    if closed then separator name address s' else null (fail expected_value_at_address s')

unfoldable pub parse_memory_function : Bytes → NodeParser
unfolding consume consume_keyword fail parse_numeric address_argument
parse_memory_function name s =
    let (opened, s₁) = consume (codes "(") s in
    let (keyword, s₂) = consume_keyword (codes "valueAt") s₁ in
    let (inner, s₃) = consume (codes "(") s₂ in
    if not opened
    then null (fail (expected_open_after_function name) s₁)
    else if not keyword
    then null (fail expected_value_at s₂)
    else if not inner
    then null (fail expected_value_at s₃)
    else address_argument name (parse_numeric s₃)

unfoldable pub compared : NumericValue → CompareOperator → Option NumericValue × Parser → Outcome
unfolding fail
compared left op (none, s) = null (fail expected_comparison_value s)
compared left op (some right, s) = node (compare op left right) s

unfoldable pub after_value : NumericValue → Option CompareOperator × Parser → Outcome
unfolding parse_numeric compared
after_value left (none, s) = node (truthy left) s
after_value left (some op, s) = compared left op (parse_numeric s)

unfoldable pub parse_comparison : Option NumericValue × Parser → Outcome
unfolding fail after_value parse_comparison_operator
parse_comparison (none, s) = null (fail expected_expression s)
parse_comparison (some left, s) = after_value left (parse_comparison_operator s)

abbrev pub is_memory_function : Bytes → Bool
is_memory_function name = equal name (codes "masked_cmp") || equal name strcmp

-- The part of `parse_primary` from `saved` on: the identifier is read once to see whether it names
-- a function, and the position goes back to `saved` where it does not.
unfoldable pub parse_operand : Parser → Option Bytes × Parser → Outcome
unfolding equal parse_numeric parse_comparison parse_memory_function
parse_operand saved (none, s) = parse_comparison (parse_numeric (at s saved.rest))
parse_operand saved (some name, s) =
    if is_memory_function name
    then parse_memory_function name s
    else parse_comparison (parse_numeric (at s saved.rest))

-- `( … )`, behind the opening parenthesis
unfoldable pub parse_group : NodeParser → NodeParser
unfolding enter_nested leave_nested expect_behind
parse_group parse_or s =
    let (entered, s') = enter_nested s in
    if entered
    then and_then (leaving (parse_or s')) (expect_behind (codes ")") expected_close)
    else null s'

unfoldable pub parse_primary : NodeParser → NodeParser
unfolding consume consume_keyword parse_identifier parse_operand parse_group
parse_primary parse_or s =
    let (opened, s₁) = consume (codes "(") s in
    let (true_word, s₂) = consume_keyword (codes "true") s₁ in
    let (false_word, s₃) = consume_keyword (codes "false") s₂ in
    if opened
    then parse_group parse_or s₁
    else if true_word
    then node (literal true) s₂
    else if false_word
    then node (literal false) s₃
    else parse_operand s₃ (parse_identifier s₃)

-- `!` and the operand behind it
unfoldable pub parse_unary : ℕ → NodeParser → NodeParser
unfolding consume enter_nested leave_nested
parse_unary zero primary s = out_of_fuel
parse_unary (suc fuel) primary s =
    let (bang, s₁) = consume (codes "!") s in
    let (entered, s₂) = enter_nested s₁ in
    elim bang [
      | false ↦ primary s₁
      | true ↦ elim entered [
        | false ↦ null s₂
        | true ↦
            and_then (leaving (parse_unary fuel primary s₂))
              λ operand s₃. node (negation operand) s₃
      ]
    ]

-- the loop of `parse_binary`, with the left operand so far
unfoldable pub binary_loop :
    ℕ
    → NodeParser
    → Bytes
    → (ConditionNode → ConditionNode → ConditionNode)
    → ConditionNode
    → NodeParser
unfolding consume
binary_loop zero operand token kind left s = out_of_fuel
binary_loop (suc fuel) operand token kind left s =
    let (more, s') = consume token s in
    elim more [
      | false ↦ node left s'
      | true ↦
          and_then (operand s')
            λ right s''. binary_loop fuel operand token kind (kind left right) s''
    ]

unfoldable pub parse_binary :
    ℕ → NodeParser → Bytes → (ConditionNode → ConditionNode → ConditionNode) → NodeParser
unfolding binary_loop
parse_binary fuel operand token kind s = and_then (operand s) (binary_loop fuel operand token kind)

unfoldable pub parse_and : ℕ → NodeParser → NodeParser
unfolding parse_binary parse_unary parse_primary
parse_and fuel parse_or =
    parse_binary fuel (parse_unary fuel (parse_primary parse_or)) (codes "&&") conjunction

-- Each group inside parentheses has one unit less than what is around it.
unfoldable pub parse_or : ℕ → NodeParser
unfolding parse_binary parse_and
parse_or zero s = out_of_fuel
parse_or (suc fuel) s =
    parse_binary (suc fuel) (parse_and (suc fuel) (λ s'. parse_or fuel s')) (codes "||") disjunction
      s

-- what follows the condition: spaces only
unfoldable pub at_end : ConditionNode → NodeParser
unfolding skip_space fail
at_end n s =
    let s' = skip_space s in
    elim s'.rest [ [] ↦ node n s' | c ∷ cs ↦ null (fail unexpected_input s') ]

-- `Parser::parse`
unfoldable pub parse : ℕ → NodeParser
unfolding skip_space consume consume_keyword fail expect_behind parse_or at_end
parse fuel s =
    let (if_word, s₁) = consume_keyword (codes "if") (skip_space s) in
    let (opened, s₂) = consume (codes "(") s₁ in
    if if_word
    then (if opened
        then and_then
            (and_then (parse_or fuel s₂) (expect_behind (codes ")") expected_close_after_condition))
            at_end
        else null (fail expected_open_after_if s₂))
    else and_then (parse_or fuel s₁) at_end
