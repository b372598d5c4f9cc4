-- ===== src/Condition/Sound/Calls.antt =====
-- src/backend/conditions/BreakpointCondition.cpp: the parsers of one comparison and of one call of
-- `masked_cmp` or `strcmp`.
use mydbg.Base.{◌≤◌, ◌≡◌, refl, not, Option, none, some}
use mydbg.Base.Bytes.{Bytes, codes, equal}
use mydbg.Condition.Syntax.{CompareOperator, NumericValue}
use mydbg.Condition.Scanner.{Parser, consume, consume_keyword, max_depth}
use mydbg.Condition.Pattern.{decode_pattern, Decoded, decoded, refused}
use mydbg.Condition.Pattern.Matching.{decode_pattern-decoded}
use mydbg.Condition.WellFormed.{IsNumeric}
use mydbg.Condition.Keeps.{Keeps, Keeps-trans, consume-Takes, consume_keyword-Takes}
use mydbg.Condition.Keeps.Literals.{
  Reads, read, absent, IsText, parse_numeric-Reads, parse_string-Reads,
  parse_comparison_operator-Keeps,
}
use mydbg.Condition.Parser.{
  masked_node, memory_node, string_argument, separator, address_argument, parse_memory_function,
  compared, after_value, parse_comparison,
}
use mydbg.Condition.Sound.Good.{Good, Good-if, Good-fail, Good-node}

module _ {s : Parser} (d : s.depth ≤ max_depth) where
  masked_node-Good :
      (text : Bytes) (address : NumericValue) (t : Parser)
      → IsNumeric address
      → Keeps s t
      → Good s (masked_node address t (decode_pattern text))
  unfolding masked_node
  masked_node-Good text address t w k = split (decode_pattern text) refl
    where
      split : (r : Decoded) → decode_pattern text ≡ r → Good s (masked_node address t r)
      split (decoded es ms) e = Good-node _ d refl (w, (decode_pattern-decoded text e).1) k
      split (refused key) e = Good-fail key t

  memory_node-Good :
      (name : Bytes) (address : NumericValue) (text : Bytes) (t : Parser)
      → IsNumeric address
      → Keeps s t
      → Good s (memory_node name address text t)
  unfolding memory_node
  memory_node-Good name address text t w k =
      Good-if (equal name (codes "strcmp")) (λ e. Good-node _ d refl w k)
        (λ e. masked_node-Good text address t w k)

  string_argument-Good :
      (name : Bytes) (address : NumericValue) (t : Parser) (r : Option Bytes × Parser)
      → IsNumeric address
      → Keeps s t
      → Reads IsText t r
      → Good s (string_argument name address r)
  unfolding string_argument
  string_argument-Good name address t r w k (read {a = text} {s' = t'} k' _) =
      Good-if (consume (codes ")") t').0
        (λ e.
          memory_node-Good name address text _ w
            (Keeps-trans k (Keeps-trans k' (consume-Takes (codes ")") t').keeps)))
        (λ e. Good-fail _ _)
  string_argument-Good name address t r w k absent = Good-fail _ _

  separator-Good :
      (name : Bytes) (address : NumericValue) (t : Parser)
      → IsNumeric address
      → Keeps s t
      → Good s (separator name address t)
  unfolding separator
  separator-Good name address t w k =
      let t₁ = (consume (codes ",") t).1 in
      let k₁ = Keeps-trans k (consume-Takes (codes ",") t).keeps in
      let t₂ = (consume (codes "==") t₁).1 in
      let k₂ = Keeps-trans k₁ (consume-Takes (codes "==") t₁).keeps in
      Good-if (consume (codes ",") t).0
        (λ e. string_argument-Good name address t₁ _ w k₁ (parse_string-Reads t₁))
        (λ e.
          Good-if (equal name (codes "strcmp"))
            (λ e.
              Good-if (consume (codes "==") t₁).0
                (λ e. string_argument-Good name address t₂ _ w k₂ (parse_string-Reads t₂))
                (λ e. Good-fail _ _))
            (λ e. Good-fail _ _))

  address_argument-Good :
      (name : Bytes) (t : Parser) (r : Option NumericValue × Parser)
      → Keeps s t
      → Reads IsNumeric t r
      → Good s (address_argument name r)
  unfolding address_argument
  address_argument-Good name t r k (read {a = address} {s' = t'} k' w) =
      Good-if (consume (codes ")") t').0
        (λ e.
          separator-Good name address _ w
            (Keeps-trans k (Keeps-trans k' (consume-Takes (codes ")") t').keeps)))
        (λ e. Good-fail _ _)
  address_argument-Good name t r k absent = Good-fail _ _

  pub parse_memory_function-Good :
      (name : Bytes) (t : Parser) → Keeps s t → Good s (parse_memory_function name t)
  unfolding parse_memory_function
  parse_memory_function-Good name t k =
      let t₁ = (consume (codes "(") t).1 in
      let k₁ = Keeps-trans k (consume-Takes (codes "(") t).keeps in
      let t₂ = (consume_keyword (codes "valueAt") t₁).1 in
      let k₂ = Keeps-trans k₁ (consume_keyword-Takes (codes "valueAt") t₁).keeps in
      let t₃ = (consume (codes "(") t₂).1 in
      let k₃ = Keeps-trans k₂ (consume-Takes (codes "(") t₂).keeps in
      Good-if (not (consume (codes "(") t).0) (λ e. Good-fail _ _)
        (λ e.
          Good-if (not (consume_keyword (codes "valueAt") t₁).0) (λ e. Good-fail _ _)
            (λ e.
              Good-if (not (consume (codes "(") t₂).0) (λ e. Good-fail _ _)
                (λ e. address_argument-Good name t₃ _ k₃ (parse_numeric-Reads t₃))))

  compared-Good :
      (left : NumericValue) (op : CompareOperator) (t : Parser) (r : Option NumericValue × Parser)
      → IsNumeric left
      → Keeps s t
      → Reads IsNumeric t r
      → Good s (compared left op r)
  unfolding compared
  compared-Good left op t r w k (read k' w') = Good-node _ d refl (w, w') (Keeps-trans k k')
  compared-Good left op t r w k absent = Good-fail _ _

  after_value-Good :
      (left : NumericValue) (r : Option CompareOperator × Parser)
      → IsNumeric left
      → Keeps s r.1
      → Good s (after_value left r)
  unfolding after_value
  after_value-Good left (none, t) w k = Good-node _ d refl w k
  after_value-Good left (some op, t) w k = compared-Good left op t _ w k (parse_numeric-Reads t)

  pub parse_comparison-Good :
      (t : Parser) (r : Option NumericValue × Parser)
      → Keeps s t
      → Reads IsNumeric t r
      → Good s (parse_comparison r)
  unfolding parse_comparison
  parse_comparison-Good t r k (read {a = left} {s' = t'} k' w) =
      after_value-Good left _ w
        (Keeps-trans k (Keeps-trans k' (parse_comparison_operator-Keeps t')))
  parse_comparison-Good t r k absent = Good-fail _ _
