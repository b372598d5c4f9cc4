-- ===== src/Condition/Sound/Nodes.antt =====
-- src/backend/conditions/BreakpointCondition.cpp: the parsers that call one another.
use mydbg.Base.{
  ℕ, zero, suc, ◌+◌, ◌≤◌, ◌<◌, ◌≡◌, refl, sym, ◌≢◌, inl, inr, true, false, ◌||◌, Option, none, some,
  arith, Bool-cases, List-cases, length,
}
use mydbg.Base.Bytes.{Bytes, codes, equal}
use mathlib.Core.Path.{subst}
use mydbg.Condition.Syntax.{ConditionNode, literal, negation, conjunction, disjunction, Key}
use mydbg.Condition.Scanner.{
  Parser, at, consume, skip_space, consume_keyword, enter_nested, leave_nested, max_depth,
}
use mydbg.Condition.Literals.{parse_identifier}
use mydbg.Condition.Keeps.{
  Keeps, Keeps-trans, skip_space-Keeps, consume-Takes, consume_keyword-Takes, fail-error,
}
use mydbg.Condition.Keeps.Literals.{parse_identifier-Keeps, parse_numeric-Reads}
use mydbg.Condition.Parser.{
  Outcome, NodeParser, and_then, leaving, parse_operand, parse_group, parse_primary, parse_unary,
  binary_loop, parse_binary, parse_and, parse_or, at_end, parse,
}
use mydbg.Condition.Sound.Good.{
  IsSound, Good, good, rejected, Good-after, Good-if, Good-and_then, Good-fail, Good-node,
  expect_behind-Good,
}
use mydbg.Condition.Sound.Calls.{parse_memory_function-Good, parse_comparison-Good}

parse_operand-Good :
    {s : Parser} (saved : Parser) (r : Option Bytes × Parser)
    → s.depth ≤ max_depth
    → Keeps s saved
    → Keeps saved r.1
    → Good s (parse_operand saved r)
unfolding parse_operand
parse_operand-Good saved (none, t) d k k' =
    let u = at t saved.rest in parse_comparison-Good d u _ (ground arith) (parse_numeric-Reads u)
parse_operand-Good saved (some name, t) d k k' =
    let u = at t saved.rest in
    Good-if (equal name (codes "masked_cmp") || equal name (codes "strcmp"))
      (λ e. parse_memory_function-Good d name t (Keeps-trans k k'))
      (λ e. parse_comparison-Good d u _ (ground arith) (parse_numeric-Reads u))

-- The parser does well where the text left is shorter than its fuel.
abbrev pub Parses : ℕ → NodeParser → Type 0
Parses fuel p = (t : Parser) → length t.rest < fuel → t.depth ≤ max_depth → Good t (p t)

-- One level deeper than `s`, with no more text.
record Enters (s t : Parser) : Type 0 where
  deeper : t.depth ≡ s.depth + 1
  same_source : t.source ≡ s.source
  same_error : t.error ≡ s.error
  shorter : length t.rest ≤ length s.rest
  in_bounds : t.depth ≤ max_depth

enter_nested-Enters : (s : Parser) → (enter_nested s).0 ≡ true → Enters s (enter_nested s).1
unfolding enter_nested
enter_nested-Enters s e = ground arith

enter_nested-fails : (s : Parser) → (enter_nested s).0 ≡ false → (enter_nested s).1.error ≢ none
unfolding enter_nested
enter_nested-fails s e =
    ground (arith, fail-error Key.nesting_too_deep (record s { depth = s.depth + 1 }))

leaving-and_then-Good :
    {s t : Parser} {o : Outcome} {f : ConditionNode → NodeParser}
    → Enters s t
    → Good t o
    → ((n : ConditionNode) (u : Parser) → Keeps s u → IsSound (s.depth + 1) n → Good s (f n u))
    → Good s (and_then (leaving o) f)
unfolding leave_nested
leaving-and_then-Good {s} {t} enters (good {n} {s'} k h) f =
    f n (leave_nested s') (ground arith) (subst (λ d. IsSound d n) enters.deeper h)
leaving-and_then-Good enters (rejected x) f = rejected x

weaker : {depth : ℕ} {n : ConditionNode} → IsSound (depth + 1) n → IsSound depth n
weaker h = record { well_formed = h.well_formed; nests = omega arith }

module _ {fuel : ℕ} {parse_or : NodeParser} (h : Parses fuel parse_or) where
  parse_group-Good : (s : Parser) → length s.rest < fuel → Good s (parse_group parse_or s)
  unfolding parse_group
  parse_group-Good s l = elim (Bool-cases (enter_nested s).0) [
    | inl e ↦
        let enters = enter_nested-Enters s e in
        rw e (
          leaving-and_then-Good enters (h (enter_nested s).1 (omega arith) enters.in_bounds)
            (λ n u k i. expect_behind-Good (codes ")") Key.expected_close n u k (weaker i)))
    | inr e ↦ rw e (rejected (enter_nested-fails s e))
  ]

  parse_primary-Good : Parses (suc fuel) (parse_primary parse_or)
  unfolding parse_primary
  parse_primary-Good s l d =
      let opening = consume-Takes (codes "(") s in
      let s₁ = (consume (codes "(") s).1 in
      let word = consume_keyword-Takes (codes "true") s₁ in
      let s₂ = (consume_keyword (codes "true") s₁).1 in
      let other = consume_keyword-Takes (codes "false") s₂ in
      let s₃ = (consume_keyword (codes "false") s₂).1 in
      let k₂ = Keeps-trans opening.keeps word.keeps in
      let k₃ = Keeps-trans k₂ other.keeps in
      Good-if (consume (codes "(") s).0
        (λ e. Good-after opening.keeps (parse_group-Good s₁ (omega (arith, opening.takes e))))
        (λ e.
          Good-if (consume_keyword (codes "true") s₁).0 (λ e. Good-node (literal true) d refl tt k₂)
            (λ e.
              Good-if (consume_keyword (codes "false") s₂).0
                (λ e. Good-node (literal false) d refl tt k₃)
                (λ e.
                  parse_operand-Good s₃ (parse_identifier s₃) d k₃ (parse_identifier-Keeps s₃))))

conjunction-Joins :
    (depth : ℕ) (a b : ConditionNode)
    → IsSound depth a
    → IsSound depth b
    → IsSound depth (conjunction a b)
conjunction-Joins depth a b h k = record {
  well_formed = (h.well_formed, k.well_formed);
  nests = omega (arith, h.nests, k.nests);
}

disjunction-Joins :
    (depth : ℕ) (a b : ConditionNode)
    → IsSound depth a
    → IsSound depth b
    → IsSound depth (disjunction a b)
disjunction-Joins depth a b h k = record {
  well_formed = (h.well_formed, k.well_formed);
  nests = omega (arith, h.nests, k.nests);
}

negated : {depth : ℕ} {n : ConditionNode} → IsSound (depth + 1) n → IsSound depth (negation n)
negated h = record { well_formed = h.well_formed; nests = omega (arith, h.nests) }

module _ {limit : ℕ} {operand : NodeParser} (h : Parses limit operand) where
  parse_unary-Good : (fuel : ℕ) → fuel ≤ limit → Parses fuel (parse_unary fuel operand)
  unfolding parse_unary
  parse_unary-Good zero b s l d = absurd (omega arith)
  parse_unary-Good (suc fuel) b s l d =
      let bang = consume-Takes (codes "!") s in
      let s₁ = (consume (codes "!") s).1 in
      elim (Bool-cases (consume (codes "!") s).0) [
        | inr e ↦ rw (e, parse_unary) (Good-after bang.keeps (h s₁ (ground arith) (ground arith)))
        | inl e ↦ elim (Bool-cases (enter_nested s₁).0) [
          | inr e' ↦ rw (e, e', parse_unary) (rejected (enter_nested-fails s₁ e'))
          | inl e' ↦
              let enters = enter_nested-Enters s₁ e' in
              rw (e, e', parse_unary)
                (Good-after bang.keeps (
                  leaving-and_then-Good enters
                    (parse_unary-Good fuel (omega arith) (enter_nested s₁).1
                      (omega (arith, enters.shorter, bang.takes e)) enters.in_bounds)
                    (λ n u k i. good k (negated i))))
        ]
      ]

  module _ (token : Bytes) (kind : ConditionNode → ConditionNode → ConditionNode)
      (visible : 0 < length token)
      (joins : (depth : ℕ) (a b : ConditionNode)
        → IsSound depth a
        → IsSound depth b
        → IsSound depth (kind a b)) where
    binary_loop-Good :
        (fuel : ℕ) (left : ConditionNode) (s : Parser)
        → fuel ≤ limit
        → length s.rest < fuel
        → s.depth ≤ max_depth
        → IsSound s.depth left
        → Good s (binary_loop fuel operand token kind left s)
    unfolding binary_loop
    binary_loop-Good zero left s b l d i = absurd (omega arith)
    binary_loop-Good (suc fuel) left s b l d i =
        let more = consume-Takes token s in
        let s' = (consume token s).1 in
        elim (Bool-cases (consume token s).0) [
          | inr e ↦ rw (e, binary_loop) (good more.keeps i)
          | inl e ↦
              rw (e, binary_loop)
                (Good-after more.keeps (
                  Good-and_then (h s' (omega (arith, more.takes e)) (ground arith)) (λ right u k j.
                    Good-after k (
                      binary_loop-Good fuel (kind left right) u (omega arith)
                        (omega (arith, more.takes e, k.shorter)) (ground arith)
                        (joins u.depth left right (subst (λ d. IsSound d left) (ground arith) i)
                          (subst (λ d. IsSound d right) (ground arith) j))))))
        ]

    parse_binary-Good :
        (fuel : ℕ) → fuel ≤ limit → Parses fuel (parse_binary fuel operand token kind)
    unfolding parse_binary
    parse_binary-Good fuel b s l d = Good-and_then (h s (omega arith) d) (λ left u k i.
        Good-after k (
          binary_loop-Good fuel left u b (omega (arith, k.shorter)) (ground arith)
            (subst (λ d. IsSound d left) (sym k.same_depth) i)))

parse_and-Good :
    {fuel : ℕ} {parse_or : NodeParser}
    → Parses fuel parse_or
    → Parses (suc fuel) (parse_and (suc fuel) parse_or)
unfolding parse_and
parse_and-Good {fuel} h =
    let primary = parse_primary-Good h in
    let unary = parse_unary-Good primary (suc fuel) (omega arith) in
    parse_binary-Good unary (codes "&&") conjunction (omega arith) conjunction-Joins (suc fuel)
      (omega arith)

-- Fuel above the length of the text is enough for `parse_or`.
pub parse_or-Good : (fuel : ℕ) → Parses fuel (λ s. parse_or fuel s)
unfolding parse_or
parse_or-Good zero = λ s l d. absurd (omega arith)
parse_or-Good (suc fuel) =
    parse_binary-Good (parse_and-Good (parse_or-Good fuel)) (codes "||") disjunction (omega arith)
      disjunction-Joins (suc fuel) (omega arith)

at_end-Good :
    {s : Parser} (n : ConditionNode) (t : Parser)
    → Keeps s t
    → IsSound s.depth n
    → Good s (at_end n t)
unfolding at_end
at_end-Good n t k i = elim (List-cases (skip_space t).rest) [
  | inl e ↦ rw (e, at_end) (good (Keeps-trans k (skip_space-Keeps t)) i)
  | inr (c, cs, e) ↦ rw (e, at_end) (Good-fail _ _)
]

pub parse-Good : (fuel : ℕ) → Parses fuel (parse fuel)
unfolding parse
parse-Good fuel s l d =
    let s₀ = skip_space s in
    let word = consume_keyword-Takes (codes "if") s₀ in
    let s₁ = (consume_keyword (codes "if") s₀).1 in
    let opening = consume-Takes (codes "(") s₁ in
    let s₂ = (consume (codes "(") s₁).1 in
    let k₁ = Keeps-trans (skip_space-Keeps s) word.keeps in
    let k₂ = Keeps-trans k₁ opening.keeps in
    Good-if (consume_keyword (codes "if") s₀).0
      (λ e.
        Good-if (consume (codes "(") s₁).0
          (λ e.
            Good-and_then
              (Good-and_then
                (Good-after k₂ (parse_or-Good fuel s₂ (omega (arith, k₂.shorter)) (ground arith)))
                (λ n t k i.
                  expect_behind-Good (codes ")") Key.expected_close_after_condition n t k i))
              (λ n t k i. at_end-Good n t k i))
          (λ e. Good-fail _ _))
      (λ e.
        Good-and_then
          (Good-after k₁ (parse_or-Good fuel s₁ (omega (arith, k₁.shorter)) (ground arith)))
          (λ n t k i. at_end-Good n t k i))
