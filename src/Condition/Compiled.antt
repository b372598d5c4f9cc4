-- ===== src/Condition/Compiled.antt =====
-- src/backend/conditions/BreakpointCondition.cpp: what `compile` returns for any source.
use mydbg.Base.{
  suc, ◌≤◌, ◌≡◌, refl, ◌⊎◌, inl, inr, Option, none, some, [], ◌∷◌, arith, ltb, Bool-cases,
  Option-cases, length,
}
use mydbg.Base.Bytes.{Bytes}
use mathlib.Core.Path.{subst}
use mydbg.Condition.Syntax.{ConditionNode, Message}
use mydbg.Condition.Scanner.{max_depth}
use mydbg.Condition.Parser.{Outcome}
use mydbg.Condition.WellFormed.{WellFormed, nesting}
use mydbg.Condition.Sound.Good.{Good, good, rejected}
use mydbg.Condition.Sound.Nodes.{parse-Good}
use mydbg.Condition.Compile.{CompileResult, start, result_of, compile}

-- A condition that is compiled: its source is kept, its tree is well formed, no negation in it
-- stands more than 64 deep, and there is no error.
pub record IsCompiled (source : Bytes) (r : CompileResult) : Type 0 where
  pub root : ConditionNode
  pub root_is : r.condition.root ≡ some root
  pub source_is : r.condition.source ≡ source
  pub no_error : r.error ≡ none
  pub well_formed : WellFormed root
  pub nests : nesting root ≤ max_depth

-- A condition that is refused: there is no tree, and there is a message.
pub record IsRefused (r : CompileResult) : Type 0 where
  pub no_root : r.condition.root ≡ none
  pub message : Message
  pub error_is : r.error ≡ some message

abbrev Compiles : Bytes → Option CompileResult → Type 0
Compiles source none = ⊥
Compiles source (some r) = IsCompiled source r ⊎ IsRefused r

result_of-Compiles :
    (source : Bytes) (o : Outcome) → Good (start source) o → Compiles source (result_of source o)
result_of-Compiles source o (good {n} k h) = inl (record {
  root = n;
  root_is = refl;
  source_is = refl;
  no_error = refl;
  well_formed = h.well_formed;
  nests = omega (arith, h.nests);
})
result_of-Compiles source o (rejected {s'} e) = elim (Option-cases s'.error) [
  | inl none_is ↦ absurd (e none_is)
  | inr (m, m_is) ↦ inr (record { no_root = refl; message = m; error_is = m_is })
]

compile-Compiles : (source : Bytes) → Compiles source (compile source)
unfolding compile
compile-Compiles [] = inr (record { no_root = refl; message = _; error_is = refl })
compile-Compiles (c ∷ cs) = elim (Bool-cases (ltb 4096 (length (c ∷ cs)))) [
  | inl e ↦ rw e (inr (record { no_root = refl; message = _; error_is = refl }))
  | inr e ↦ rw e (
      result_of-Compiles (c ∷ cs) _
        (parse-Good (suc (length (c ∷ cs))) (start (c ∷ cs)) (omega arith) (omega arith)))
]

-- `compile` always comes to an end with one of two results. Either the condition is compiled: it
-- keeps its source, has no error, and its tree is well formed (every literal fits 64 bits, every
-- register name is an identifier, every masked pattern has 1 to 256 expected bytes with as many mask
-- bytes, which cover them) and has no negation more than 64 deep. Or it is refused: it has no tree,
-- and an error message.
pub compile-IsCompiled_or_IsRefused :
    (source : Bytes)
    → (r : CompileResult) × (compile source ≡ some r) × (IsCompiled source r ⊎ IsRefused r)
compile-IsCompiled_or_IsRefused source = split (compile source) refl
  where
    split :
        (o : Option CompileResult)
        → compile source ≡ o
        → (r : CompileResult) × (compile source ≡ some r) × (IsCompiled source r ⊎ IsRefused r)
    split none e = absurd (subst (Compiles source) e (compile-Compiles source))
    split (some r) e = (r, e, subst (Compiles source) e (compile-Compiles source))
