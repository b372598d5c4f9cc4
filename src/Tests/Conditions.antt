-- ===== src/Tests/Conditions.antt =====
-- Conditions at concrete inputs.
use mathlib.Core.Path.{◌≡◌, refl}
use mathlib.Core.Logic.{◌↔◌, ◌⊎◌}
use mathlib.Core.Bool.{true, false}
use mathlib.Core.Option.{Option, none, some}
use mathlib.Core.List.{[], ◌∷◌}
use native.Mathlib.Omega.{arith}
use mydbg.Base.{get_or}
use mydbg.Base.Bytes.{Bytes, codes, is_alpha, is_word}
use mydbg.Condition.Syntax.{
  string_compare, CompareOperator, number, register, ConditionNode, negation, compare, conjunction,
  literal,
}
use mydbg.Condition.Pattern.{compact, decode_pattern}
use mydbg.Condition.Pattern.Matching.{PatternMatches, decode_pattern-masked_equal}
use mydbg.Condition.Compile.{CompileResult, compile}
use mydbg.Condition.Compiled.{IsCompiled, IsRefused, compile-IsCompiled_or_IsRefused}
use mydbg.Condition.Evaluate.{ok, EvaluationContext, masked_equal, string_equal, evaluate_node}
use mydbg.Condition.Evaluate.Meaning.{Answers, Meaning, evaluate_node-Meaning}

abbrev source_text : Bytes
source_text = codes "if ($rax == 0x10 && !false)"

compile-IsCompiled_or_IsRefused_example :
    (r : CompileResult) × (compile source_text ≡ some r) × (IsCompiled source_text r ⊎ IsRefused r)
compile-IsCompiled_or_IsRefused_example = compile-IsCompiled_or_IsRefused source_text

root_of : Option CompileResult → Option ConditionNode
root_of none = none
root_of (some r) = r.condition.root

compile_run :
    root_of (compile source_text)
    ≡ some (
        conjunction
          (compare CompareOperator.equal (register (codes "rax")) (number 16))
          (negation (literal false)))
unfolding compile root_of
compile_run = refl

-- A context whose every register holds 4096, and whose memory begins with the text "ab" everywhere
abbrev stopped_target : EvaluationContext
stopped_target = record {
  read_register = some (λ name. ok 4096);
  read_memory = some (λ address size. ok (λ i. get_or (codes "ab") i 0));
}

-- `strcmp($rdi, "ab")` and a comparison of numbers
abbrev text_at_register : ConditionNode
text_at_register =
    conjunction (string_compare (register (codes "rdi")) (codes "ab"))
      (compare CompareOperator.equal (register (codes "rax")) (number 4096))

evaluate_node-Meaning_example : Answers true (Meaning stopped_target text_at_register)
unfolding evaluate_node is_alpha is_word
evaluate_node-Meaning_example =
    evaluate_node-Meaning stopped_target text_at_register
      ((refl, refl), ((refl, refl), omega arith)) refl

decode_pattern-masked_equal_example :
    (masked_equal (0xde ∷ 0x7d ∷ []) (0xff ∷ 0x0f ∷ []) (0xde ∷ 0x0d ∷ []) ≡ true)
    ↔ PatternMatches (compact (codes "DE ?D")) (0xde ∷ 0x7d ∷ [])
unfolding decode_pattern
decode_pattern-masked_equal_example =
    decode_pattern-masked_equal (codes "DE ?D") (0xde ∷ 0x7d ∷ []) (0xde ∷ 0x0d ∷ [])
      (0xff ∷ 0x0f ∷ []) refl (omega arith, (omega arith, tt)) refl

-- A character from 128 on, which is negative as a `char`, does not match the byte.
string_equal_run : string_equal (200 ∷ []) (200 ∷ 0 ∷ []) ≡ false
unfolding string_equal
string_equal_run = refl

string_equal_ascii : string_equal (codes "ab") (b'a' ∷ b'b' ∷ 0 ∷ []) ≡ true
unfolding string_equal
string_equal_ascii = refl
