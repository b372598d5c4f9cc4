-- ===== src/Condition/Compile.antt =====
-- src/backend/conditions/BreakpointCondition.cpp: `compile`, and the types CompiledCondition and
-- CompileResult of BreakpointCondition.h.
use mydbg.Base.{
  ℕ, suc, Bool, true, false, ◌&&◌, Option, none, some, [], ◌∷◌, ltb, if◌then◌else◌, length,
}
use mydbg.Base.Bytes.{Bytes}
use mydbg.Condition.Syntax.{ConditionNode, Message, text, empty, too_long}
use mydbg.Condition.Scanner.{Parser}
use mydbg.Condition.Parser.{Outcome, node, null, out_of_fuel, parse}

-- `root` is `none` for the null pointer of a condition that is not compiled.
pub record CompiledCondition : Type 0 where
  pub root : Option ConditionNode
  pub source : Bytes

pub record CompileResult : Type 0 where
  pub condition : CompiledCondition
  pub error : Option Message

abbrev pub valid : CompiledCondition → Bool
valid c = elim c.root [ none ↦ false | some _ ↦ true ]

-- `operator bool`
abbrev pub succeeded : CompileResult → Bool
succeeded r = valid r.condition && (elim r.error [ none ↦ true | some _ ↦ false ])

abbrev pub max_source : ℕ
max_source = 4096

abbrev pub start : Bytes → Parser
start source = record { source = source; rest = source; depth = 0; error = none }

abbrev not_compiled_with : Option Message → CompileResult
not_compiled_with e = record { condition = record { root = none; source = [] }; error = e }

-- `none` of the model: the fuel ran out
abbrev pub result_of : Bytes → Outcome → Option CompileResult
result_of source (node root s) =
    some (record { condition = record { root = some root; source = source }; error = none })
result_of source (null s) = some (not_compiled_with s.error)
result_of source out_of_fuel = none

unfoldable pub compile : Bytes → Option CompileResult
unfolding parse
compile [] = some (not_compiled_with (some (text empty)))
compile (c ∷ cs) =
    if ltb max_source (length (c ∷ cs))
    then some (not_compiled_with (some (text too_long)))
    else result_of (c ∷ cs) (parse (suc (length (c ∷ cs))) (start (c ∷ cs)))
