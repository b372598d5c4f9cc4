-- ===== src/Condition/Keeps/Literals.antt =====
-- src/backend/conditions/BreakpointCondition.cpp: what the literals read are, and that reading them
-- keeps the parser's state.
use mydbg.Base.{
  ℕ, ◌≤◌, ◌<◌, ◌≡◌, refl, inl, inr, Bool, true, false, ◌||◌, Option, none, some, List, [], ◌∷◌,
  ◌++◌, arith, ltb, ◌==◌, if◌then◌else◌, Bool-cases, Option-cases, length, drop, take_while,
  drop_while, length-drop, length-drop_while-le, all-take_while,
}
use mydbg.Base.Bytes.{Bytes, is_alpha, is_word}
use native.Mathlib.Nat.{le_trans}
use mydbg.Base.FromChars.{
  FromChars, parsed, invalid_argument, out_of_range, from_digits, is_base_digit, u64_mod,
}
use mydbg.Condition.Syntax.{CompareOperator}
use mydbg.Condition.Scanner.{Parser, skip_space, consume}
use mydbg.Condition.Literals.{
  skip_dollar, identifier_at, parse_identifier, has_hex_prefix, numeric_literal, register_value,
  begins_with_digit, string_at, operators, parse_number, parse_numeric, unescape, max_text,
  string_loop, parse_string, first_operator, parse_comparison_operator,
}
use mydbg.Condition.WellFormed.{IsIdentifier, IsNumeric}
use mydbg.Condition.Keeps.{
  Keeps, Keeps-refl, Keeps-trans, Keeps-at, skip_space-Keeps, consume-Takes,
}

-- Where the step reads a value, it is a good one, and the state is kept.
pub data Reads {ℓ κ} {A : Type ℓ} (P : A → Type κ) (s : Parser)
    : Option A × Parser → Type (ℓ ⊔ κ) where
  read : {a : A} {s' : Parser} → Keeps s s' → P a → Reads P s (some a, s')
  absent : {s' : Parser} → Reads P s (none, s')

module _ {ℓ κ} {A : Type ℓ} {P : A → Type κ} where
  Reads-after : {s t : Parser} {r : Option A × Parser} → Keeps s t → Reads P t r → Reads P s r
  Reads-after k (read k' p) = read (Keeps-trans k k') p
  Reads-after k absent = absent

  Reads-if :
      {s : Parser} (b : Bool) {x y : Option A × Parser}
      → (b ≡ true → Reads P s x)
      → (b ≡ false → Reads P s y)
      → Reads P s (if b then x else y)
  Reads-if true hx hy = hx refl
  Reads-if false hx hy = hy refl

length-skip_dollar-le : (text : Bytes) → length (skip_dollar text) ≤ length text
unfolding skip_dollar
length-skip_dollar-le [] = omega arith
length-skip_dollar-le (c ∷ cs) = ground arith

identifier_at-Reads :
    (s : Parser) (text : Bytes)
    → length text ≤ length s.rest
    → Reads IsIdentifier s (identifier_at s text)
unfolding identifier_at
identifier_at-Reads s [] h = absent
identifier_at-Reads s (c ∷ cs) h =
    Reads-if (is_alpha c || c == b'_')
      (λ e.
        read (Keeps-at s _ (ground (arith, length-drop_while-le is_word cs)))
          (e, all-take_while is_word cs))
      (λ e. absent)

pub parse_identifier-Reads : (s : Parser) → Reads IsIdentifier s (parse_identifier s)
unfolding parse_identifier
parse_identifier-Reads s =
    let s' = skip_space s in
    Reads-after (skip_space-Keeps s)
      (identifier_at-Reads s' (skip_dollar s'.rest) (length-skip_dollar-le s'.rest))

from_digits-parsed :
    (hex : Bool) (ds rest : Bytes) {value : ℕ} {behind : Bytes}
    → from_digits hex ds rest ≡ parsed value behind
    → (value < u64_mod) × (behind ≡ rest)
unfolding from_digits
from_digits-parsed hex [] rest e = cc
from_digits-parsed hex (d ∷ ds) rest e = ground arith

numeric_literal-Reads :
    (s : Parser) (hex : Bool) (ds rest : Bytes)
    → length rest ≤ length s.rest
    → Reads IsNumeric s (numeric_literal s (from_digits hex ds rest))
numeric_literal-Reads s hex ds rest h = split (from_digits hex ds rest) refl
  where
    split : (r : FromChars) → from_digits hex ds rest ≡ r → Reads IsNumeric s (numeric_literal s r)
    split (parsed value behind) e =
        let (small, same) = from_digits-parsed hex ds rest e in
        read (Keeps-at s behind (rw same h)) small
    split invalid_argument e = absent
    split (out_of_range behind) e = absent

parse_number-Reads : (s : Parser) → Reads IsNumeric s (parse_number s)
unfolding parse_number
parse_number-Reads s =
    let hex = has_hex_prefix s.rest in
    let digits = if hex then drop 2 s.rest else s.rest in
    numeric_literal-Reads s hex (take_while (is_base_digit hex) digits)
      (drop_while (is_base_digit hex) digits)
      (le_trans (length-drop_while-le (is_base_digit hex) digits)
        (ground (arith, length-drop 2 s.rest)))

register_value-Reads :
    {s : Parser} {r : Option Bytes × Parser}
    → Reads IsIdentifier s r
    → Reads IsNumeric s (register_value r)
register_value-Reads (read k p) = read k p
register_value-Reads absent = absent

pub parse_numeric-Reads : (s : Parser) → Reads IsNumeric s (parse_numeric s)
unfolding parse_numeric
parse_numeric-Reads s =
    let s' = skip_space s in
    Reads-after (skip_space-Keeps s) (
      Reads-if (begins_with_digit s'.rest) (λ e. parse_number-Reads s')
        (λ e. register_value-Reads (parse_identifier-Reads s')))

abbrev pub IsText : Bytes → Type 0
IsText _ = Unit

string_loop-Reads :
    (s : Parser) (pending : Bool) (result text : Bytes)
    → length text ≤ length s.rest
    → Reads IsText s (string_loop s pending result text)
unfolding string_loop
string_loop-Reads s pending result [] h = absent
string_loop-Reads s true result (c ∷ cs) h = elim (Option-cases (unescape c)) [
  | inl e ↦ rw (e, string_loop) absent
  | inr (d, e) ↦ elim (Bool-cases (ltb max_text (length (result ++ d ∷ [])))) [
    | inl long ↦ rw (e, long, string_loop) absent
    | inr fits ↦
        rw (e, fits, string_loop) (string_loop-Reads s false (result ++ d ∷ []) cs (omega arith))
  ]
]
string_loop-Reads s false result (c ∷ cs) h = elim (Bool-cases (c == b'"')) [
  | inl e ↦ rw (e, string_loop) (read (Keeps-at s cs (omega arith)) tt)
  | inr e ↦
      rw (e, string_loop)
        (string_loop-Reads s (c == b'\\') (if c == b'\\' then result else result ++ c ∷ []) cs
          (omega arith))
]

string_at-Reads :
    (s : Parser) (text : Bytes) → length text ≤ length s.rest → Reads IsText s (string_at s text)
string_at-Reads s [] h = absent
string_at-Reads s (c ∷ cs) h =
    Reads-if (c == b'"') (λ e. string_loop-Reads s false [] cs (omega arith)) (λ e. absent)

pub parse_string-Reads : (s : Parser) → Reads IsText s (parse_string s)
unfolding parse_string
parse_string-Reads s =
    let s' = skip_space s in
    Reads-after (skip_space-Keeps s) (string_at-Reads s' s'.rest (omega arith))

first_operator-Keeps :
    (choices : List (Bytes × CompareOperator)) (s : Parser) → Keeps s (first_operator choices s).1
unfolding first_operator
first_operator-Keeps [] s = Keeps-refl s
first_operator-Keeps ((token, op) ∷ others) s =
    ground (arith, consume-Takes token s, first_operator-Keeps others (consume token s).1)

pub parse_comparison_operator-Keeps : (s : Parser) → Keeps s (parse_comparison_operator s).1
unfolding parse_comparison_operator
parse_comparison_operator-Keeps s = first_operator-Keeps operators s

identifier_at-Keeps :
    (s : Parser) (text : Bytes) → length text ≤ length s.rest → Keeps s (identifier_at s text).1
unfolding identifier_at
identifier_at-Keeps s [] h = Keeps-refl s
identifier_at-Keeps s (c ∷ cs) h = ground (arith, length-drop_while-le is_word cs)

pub parse_identifier-Keeps : (s : Parser) → Keeps s (parse_identifier s).1
unfolding parse_identifier
parse_identifier-Keeps s =
    let s' = skip_space s in
    Keeps-trans (skip_space-Keeps s)
      (identifier_at-Keeps s' (skip_dollar s'.rest) (length-skip_dollar-le s'.rest))
