-- ===== src/Condition/Sound/Good.antt =====
-- src/backend/conditions/BreakpointCondition.cpp: what a node parser may end with, and its rules.
use mydbg.Base.{ℕ, ◌+◌, ◌≤◌, ◌≡◌, refl, ◌≢◌, Bool, true, false, none, arith, if◌then◌else◌}
use mydbg.Base.Bytes.{Bytes}
use mathlib.Core.Path.{subst}
use mydbg.Condition.Syntax.{ConditionNode, Key}
use mydbg.Condition.Scanner.{Parser, fail, consume, max_depth}
use mydbg.Condition.WellFormed.{WellFormed, nesting}
use mydbg.Condition.Keeps.{Keeps, Keeps-trans, consume-Takes, fail-error}
use mydbg.Condition.Parser.{Outcome, node, null, NodeParser, and_then, expect_behind}

-- A node that may stand `depth` groups and negations deep.
pub record IsSound (depth : ℕ) (n : ConditionNode) : Type 0 where
  pub well_formed : WellFormed n
  pub nests : nesting n + depth ≤ max_depth

pub data Good (s : Parser) : Outcome → Type 0 where
  good : {n : ConditionNode} {s' : Parser} → Keeps s s' → IsSound s.depth n → Good s (node n s')
  rejected : {s' : Parser} → s'.error ≢ none → Good s (null s')

pub Good-after : {s t : Parser} {o : Outcome} → Keeps s t → Good t o → Good s o
Good-after k (good {n} k' h) = good (Keeps-trans k k') (subst (λ d. IsSound d n) k.same_depth h)
Good-after k (rejected e) = rejected e

pub Good-if :
    {s : Parser} (b : Bool) {x y : Outcome}
    → (b ≡ true → Good s x)
    → (b ≡ false → Good s y)
    → Good s (if b then x else y)
Good-if true hx hy = hx refl
Good-if false hx hy = hy refl

pub Good-and_then :
    {s : Parser} {o : Outcome} {f : ConditionNode → NodeParser}
    → Good s o
    → ((n : ConditionNode) (t : Parser) → Keeps s t → IsSound s.depth n → Good s (f n t))
    → Good s (and_then o f)
Good-and_then (good {n} {s'} k h) f = f n s' k h
Good-and_then (rejected e) f = rejected e

pub Good-fail : {s : Parser} (key : Key) (t : Parser) → Good s (null (fail key t))
Good-fail key t = rejected (fail-error key t)

-- A node without a negation is sound where the depth is in bounds.
pub Good-node :
    {s t : Parser} (n : ConditionNode)
    → s.depth ≤ max_depth
    → nesting n ≡ 0
    → WellFormed n
    → Keeps s t
    → Good s (node n t)
Good-node n d z w k = good k (record { well_formed = w; nests = omega arith })

pub expect_behind-Good :
    {s : Parser} (token : Bytes) (key : Key) (n : ConditionNode) (t : Parser)
    → Keeps s t
    → IsSound s.depth n
    → Good s (expect_behind token key n t)
unfolding expect_behind
expect_behind-Good token key n t k h =
    Good-if (consume token t).0 (λ e. good (Keeps-trans k (consume-Takes token t).keeps) h)
      (λ e. Good-fail key _)
