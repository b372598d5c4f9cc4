-- ===== src/Condition/Syntax.antt =====
-- src/backend/conditions/BreakpointCondition.cpp: the tree of a condition, and the error messages.
-- `ConditionNode` is a tagged struct in the source: each kind is a constructor with the members
-- that the kind uses.
use mydbg.Base.{ℕ, Bool}
use mydbg.Base.Bytes.{Bytes}

pub data CompareOperator : Type 0 where
  equal not_equal less less_equal greater greater_equal : CompareOperator

-- `NumericValue`: the flag `literal` chooses between the value and the register's name.
pub data NumericValue : Type 0 where
  number : ℕ → NumericValue
  register : Bytes → NumericValue

pub data ConditionNode : Type 0 where
  literal : Bool → ConditionNode
  truthy : NumericValue → ConditionNode
  negation : ConditionNode → ConditionNode
  conjunction : ConditionNode → ConditionNode → ConditionNode
  disjunction : ConditionNode → ConditionNode → ConditionNode
  compare : CompareOperator → NumericValue → NumericValue → ConditionNode
  -- the address, `expected` and `mask`
  masked_compare : NumericValue → Bytes → Bytes → ConditionNode
  -- the address and `text`
  string_compare : NumericValue → Bytes → ConditionNode

-- The messages of `l10n::Key` that this file uses, without the prefix `Condition`.
pub data Key : Type 0 where
  expected_open_after_if : Key
  expected_close_after_condition : Key
  unexpected_input : Key
  expected_close : Key
  expected_expression : Key
  expected_comparison_value : Key
  -- formatted with the function's name
  expected_open_after_function : Bytes → Key
  expected_value_at : Key
  expected_value_at_address : Key
  expected_comparison_comma : Key
  expected_string_and_close : Key
  pattern_incomplete_bytes : Key
  pattern_too_long : Key
  pattern_invalid_hex : Key
  numeric_literal_out_of_range : Key
  unsupported_string_escape : Key
  string_literal_too_long : Key
  unterminated_string_literal : Key
  nesting_too_deep : Key
  empty : Key
  too_long : Key
  not_compiled : Key
  register_access_unavailable : Key
  memory_access_unavailable : Key

-- `l10n::text(key)`, `l10n::format(key, …, position)`, or a message that a callback wrote. All are
-- non-empty strings in the source, so the empty `std::string error` is `none` of an `Option`.
pub data Message : Type 0 where
  text : Key → Message
  format : Key → ℕ → Message
  callback : Bytes → Message
