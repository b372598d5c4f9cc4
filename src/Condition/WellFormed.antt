-- ===== src/Condition/WellFormed.antt =====
-- src/backend/conditions/BreakpointCondition.cpp: what the evaluator relies on in a tree.
use mydbg.Base.{ℕ, suc, ◌≤◌, ◌<◌, ◌≡◌, ◌⊎◌, true, ◌||◌, [], ◌∷◌, ◌==◌, length, all}
use mydbg.Base.Bytes.{Bytes, is_alpha, is_word}
use Prim.Native.Nat.{bit_and, max}
use mydbg.Base.FromChars.{u64_mod}
use mydbg.Condition.Syntax.{
  NumericValue, number, register, ConditionNode, literal, truthy, negation, conjunction,
  disjunction, compare, masked_compare, string_compare,
}
use mydbg.Condition.Pattern.{max_pattern}

-- A register's name, without its `$`.
abbrev pub IsIdentifier : Bytes → Type 0
IsIdentifier [] = ⊥
IsIdentifier (c ∷ cs) = ((is_alpha c || c == b'_') ≡ true) × (all is_word cs ≡ true)

abbrev pub IsNumeric : NumericValue → Type 0
IsNumeric (number value) = value < u64_mod
IsNumeric (register name) = IsIdentifier name

-- Each mask byte covers whole nibbles, and an expected byte has no bit outside of its mask.
abbrev pub IsMask : ℕ → ℕ → Type 0
IsMask expected mask =
    ((mask ≡ 0) ⊎ (mask ≡ 15) ⊎ (mask ≡ 240) ⊎ (mask ≡ 255)) × (bit_and expected mask ≡ expected)

abbrev pub AreMasks : Bytes → Bytes → Type 0
AreMasks [] [] = Unit
AreMasks (e ∷ es) (m ∷ ms) = IsMask e m × AreMasks es ms
AreMasks _ _ = ⊥

pub record IsPattern (expected mask : Bytes) : Type 0 where
  pub masks : AreMasks expected mask
  pub not_empty : 0 < length expected
  pub fits : length expected ≤ max_pattern

abbrev pub WellFormed : ConditionNode → Type 0
WellFormed (literal b) = Unit
WellFormed (truthy value) = IsNumeric value
WellFormed (negation operand) = WellFormed operand
WellFormed (conjunction left right) = WellFormed left × WellFormed right
WellFormed (disjunction left right) = WellFormed left × WellFormed right
WellFormed (compare op left right) = IsNumeric left × IsNumeric right
WellFormed (masked_compare address expected mask) = IsNumeric address × IsPattern expected mask
WellFormed (string_compare address string) = IsNumeric address

-- How deep negations stand inside one another.
abbrev pub nesting : ConditionNode → ℕ
nesting (negation operand) = suc (nesting operand)
nesting (conjunction left right) = max (nesting left) (nesting right)
nesting (disjunction left right) = max (nesting left) (nesting right)
nesting _ = 0
