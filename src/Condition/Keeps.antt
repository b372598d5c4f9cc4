-- ===== src/Condition/Keeps.antt =====
-- src/backend/conditions/BreakpointCondition.cpp: what each small step of class `Parser` leaves as
-- it was.
pub mod Literals
use mydbg.Base.{
  ℕ, zero, suc, ◌+◌, ◌-◌, ◌*◌, ◌/◌, ◌%◌, ◌^◌, ◌≤◌, ◌<◌, ◌≡◌, refl, sym, ap, ◌∙◌, ◌≢◌, ◌↔◌, ◌⊎◌, inl,
  inr, Bool, true, false, not, ◌&&◌, ◌||◌, Option, none, some, List, [], ◌∷◌, ◌++◌, map, append-nil,
  append_assoc, arith, leb, ltb, ◌==◌, if◌then◌else◌, leb→le, ltb→lt, lt→ltb, le→not-ltb, ==_iff,
  ==_refl, Bool-cases, Option-cases, and-eq-true, length, get_elem?, get_or, set, take, drop,
  replicate, take_while, drop_while, all, find?, tabulate, All, length-append, length-drop,
  length-set, length-drop_while-le, length-tabulate, Stops, take_while-append, drop_while-append,
  all-append, all-take_while,
}
use mydbg.Base.Bytes.{
  Bytes, codes, is_space, is_digit, is_alpha, is_xdigit, is_word, hex_value, equal, equal_iff,
  starts_with, starts_with-append, drop-append,
}
use mydbg.Condition.Syntax.{Key}
use mydbg.Condition.Scanner.{
  Parser, at, fail, skip_space, after, begins_with_word, whole_word, consume, consume_keyword,
  enter_nested, leave_nested,
}

-- The step from `s` to `s'` reads forward and touches nothing else.
pub record Keeps (s s' : Parser) : Type 0 where
  pub same_source : s'.source ≡ s.source
  pub same_depth : s'.depth ≡ s.depth
  pub same_error : s'.error ≡ s.error
  pub shorter : length s'.rest ≤ length s.rest

pub Keeps-refl : (s : Parser) → Keeps s s
Keeps-refl s = ground arith

pub Keeps-trans : {s t u : Parser} → Keeps s t → Keeps t u → Keeps s u
Keeps-trans h k = ground arith

pub Keeps-at : (s : Parser) (rest : Bytes) → length rest ≤ length s.rest → Keeps s (at s rest)
Keeps-at s rest h = ground arith

pub skip_space-Keeps : (s : Parser) → Keeps s (skip_space s)
unfolding skip_space
skip_space-Keeps s = Keeps-at s _ (length-drop_while-le is_space s.rest)

-- A step that may take a token of a given length.
pub record Takes (n : ℕ) (s : Parser) (r : Bool × Parser) : Type 0 where
  pub keeps : Keeps s r.1
  pub takes : r.0 ≡ true → length r.1.rest + n ≤ length s.rest

starts_with-length :
    (token text : Bytes) → starts_with token text ≡ true → length token ≤ length text
unfolding starts_with
starts_with-length [] text h = omega arith
starts_with-length (t ∷ ts) [] h = cc
starts_with-length (t ∷ ts) (c ∷ cs) h =
    omega (arith, starts_with-length ts cs (and-eq-true (t == c) _ h).1)

pub consume-Takes : (token : Bytes) (s : Parser) → Takes (length token) s (consume token s)
unfolding consume
consume-Takes token s = ground (
  arith,
  skip_space-Keeps s,
  starts_with-length token (skip_space s).rest,
  length-drop (length token) (skip_space s).rest,
)

pub consume_keyword-Takes :
    (keyword : Bytes) (s : Parser) → Takes (length keyword) s (consume_keyword keyword s)
unfolding consume_keyword
consume_keyword-Takes keyword s = ground (
  arith,
  skip_space-Keeps s,
  starts_with-length keyword (skip_space s).rest,
  length-drop (length keyword) (skip_space s).rest,
)

pub fail-error : (key : Key) (s : Parser) → (fail key s).error ≢ none
unfolding fail
fail-error key s = ground arith
