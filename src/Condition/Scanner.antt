-- ===== src/Condition/Scanner.antt =====
-- src/backend/conditions/BreakpointCondition.cpp: the state of class `Parser` and its small steps.
-- `rest` is `source_.substr(position_)`; the position is the number of bytes before it.
use mydbg.Base.{
  ℕ, ◌+◌, ◌-◌, Bool, true, false, Option, none, some, [], ◌∷◌, ltb, if◌then◌else◌, length, drop,
  drop_while,
}
use mydbg.Base.Bytes.{Bytes, is_space, is_word, starts_with}
use mydbg.Condition.Syntax.{Key, Message, format, nesting_too_deep}

pub record Parser : Type 0 where
  pub source : Bytes
  pub rest : Bytes
  pub depth : ℕ
  pub error : Option Message

abbrev pub position : Parser → ℕ
position s = length s.source - length s.rest

abbrev pub at : Parser → Bytes → Parser
at s rest = record s { rest = rest }

-- Only the first message is kept.
abbrev first_error : Option Message → Message → Option Message
first_error none m = some m
first_error (some e) m = some e

unfoldable pub fail : Key → Parser → Parser
fail key s = record s { error = first_error s.error (format key (position s)) }

unfoldable pub skip_space : Parser → Parser
unfolding is_space
skip_space s = at s (drop_while is_space s.rest)

-- What follows a token, or `none` where the text does not begin with it.
abbrev pub after : Bytes → Bytes → Option Bytes
after token text = if starts_with token text then some (drop (length token) text) else none

abbrev consumed : Parser → Option Bytes → Bool × Parser
consumed s none = (false, s)
consumed s (some rest) = (true, at s rest)

unfoldable pub consume : Bytes → Parser → Bool × Parser
unfolding skip_space starts_with
consume token s = let s' = skip_space s in consumed s' (after token s'.rest)

-- `end < source_.size() && (isalnum(source_[end]) || source_[end] == '_')`
abbrev pub begins_with_word : Bytes → Bool
begins_with_word [] = false
begins_with_word (c ∷ cs) = is_word c

abbrev pub whole_word : Option Bytes → Option Bytes
whole_word none = none
whole_word (some rest) = if begins_with_word rest then none else some rest

unfoldable pub consume_keyword : Bytes → Parser → Bool × Parser
unfolding skip_space starts_with is_word
consume_keyword keyword s =
    let s' = skip_space s in consumed s' (whole_word (after keyword s'.rest))

abbrev pub max_depth : ℕ
max_depth = 64

unfoldable pub enter_nested : Parser → Bool × Parser
unfolding fail
enter_nested s =
    let s' = record s { depth = s.depth + 1 } in
    if ltb max_depth (s.depth + 1) then (false, fail nesting_too_deep s') else (true, s')

unfoldable pub leave_nested : Parser → Parser
leave_nested s = record s { depth = s.depth - 1 }
