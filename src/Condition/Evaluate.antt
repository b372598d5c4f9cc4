-- ===== src/Condition/Evaluate.antt =====
-- src/backend/conditions/BreakpointCondition.cpp: `evaluate` and EvaluationContext.
pub mod Meaning
use mydbg.Base.{
  ℕ, ◌+◌, Bool, true, false, not, ◌&&◌, Option, none, some, [], ◌∷◌, leb, ltb, ◌==◌, length,
  tabulate,
}
use mydbg.Base.Bytes.{Bytes}
use Prim.Native.Nat.{bit_and}
use mydbg.Condition.Syntax.{
  CompareOperator, not_equal, less, less_equal, greater, greater_equal, NumericValue, number,
  register, ConditionNode, literal, truthy, negation, conjunction, disjunction, compare,
  masked_compare, string_compare, Message, text, not_compiled, register_access_unavailable,
  memory_access_unavailable,
}
use mydbg.Condition.Compile.{CompiledCondition}

-- `bool f(…, output, error)`: true with the output, or false with the error.
pub data Fallible {ℓ} (A : Type ℓ) : Type ℓ where
  ok : A → Fallible A
  err : Message → Fallible A

infixl 5 ◌>>=◌
abbrev pub ◌>>=◌ {ℓ κ} : {A : Type ℓ} {B : Type κ} → Fallible A → (A → Fallible B) → Fallible B
ok a >>= f = f a
err e >>= f = err e

-- The callbacks of the client, `none` where the pointer is null. They read the stopped target, which
-- `user_data` stands for. `read_memory` fills a span: the byte at each offset.
pub record EvaluationContext : Type 0 where
  pub read_register : Option (Bytes → Fallible ℕ)
  pub read_memory : Option (ℕ → ℕ → Fallible (ℕ → ℕ))

abbrev pub or_unavailable {ℓ} : {A : Type ℓ} → Message → Option A → Fallible A
or_unavailable e none = err e
or_unavailable e (some f) = ok f

unfoldable pub numeric_value : NumericValue → EvaluationContext → Fallible ℕ
numeric_value (number value) context = ok value
numeric_value (register name) context = do
  read ← or_unavailable (text register_access_unavailable) context.read_register
  read name

-- The bytes that `read_memory` leaves in a vector of `size` bytes.
unfoldable pub memory_bytes : NumericValue → ℕ → EvaluationContext → Fallible Bytes
unfolding numeric_value
memory_bytes numeric size context = do
  address ← numeric_value numeric context
  read ← or_unavailable (text memory_access_unavailable) context.read_memory
  byte ← read address size
  ok (tabulate size byte)

unfoldable pub compares : CompareOperator → ℕ → ℕ → Bool
compares CompareOperator.equal left right = left == right
compares not_equal left right = not (left == right)
compares less left right = ltb left right
compares less_equal left right = leb left right
compares greater left right = ltb right left
compares greater_equal left right = leb right left

-- The loop of MaskedCompare over `bytes`; `mask[index]` and `expected[index]` are in step with it.
unfoldable pub masked_equal : Bytes → Bytes → Bytes → Bool
masked_equal (b ∷ bs) (m ∷ ms) (e ∷ es) = bit_and b m == e && masked_equal bs ms es
masked_equal _ _ _ = true

-- `std::equal(text, bytes.begin()) && bytes.back() == 0`. A character of the text is a `char`, which
-- is signed on x86-64, and a byte is a `uint8_t`: compared as `int`, a character from 128 on, which is
-- negative, equals no byte.
unfoldable pub string_equal : Bytes → Bytes → Bool
string_equal (t ∷ ts) (b ∷ bs) = ltb t 128 && t == b && string_equal ts bs
string_equal [] (b ∷ []) = b == 0
string_equal [] (b ∷ c ∷ bs) = string_equal [] (c ∷ bs)
string_equal _ [] = false

-- the second operand of `&&` and `||`, read only where the first does not decide
abbrev pub short_circuit : Bool → Fallible Bool → Fallible Bool → Fallible Bool
short_circuit deciding left right = left >>= λ b. (elim deciding [
  | true ↦ elim b [ true ↦ ok true | false ↦ right ]
  | false ↦ elim b [ false ↦ ok false | true ↦ right ]
])

unfoldable pub evaluate_node : ConditionNode → EvaluationContext → Fallible Bool
unfolding numeric_value memory_bytes compares masked_equal string_equal
evaluate_node (literal b) context = ok b
evaluate_node (truthy value) context = do v ← numeric_value value context; ok (not (v == 0))
evaluate_node (negation operand) context = do b ← evaluate_node operand context; ok (not b)
evaluate_node (conjunction left right) context =
    short_circuit false (evaluate_node left context) (evaluate_node right context)
evaluate_node (disjunction left right) context =
    short_circuit true (evaluate_node left context) (evaluate_node right context)
evaluate_node (compare op left right) context = do
  l ← numeric_value left context
  r ← numeric_value right context
  ok (compares op l r)
evaluate_node (masked_compare address expected mask) context = do
  bytes ← memory_bytes address (length expected) context
  ok (masked_equal bytes mask expected)
evaluate_node (string_compare address string) context = do
  bytes ← memory_bytes address (length string + 1) context
  ok (string_equal string bytes)

pub record EvaluationResult : Type 0 where
  pub matched : Bool
  pub error : Option Message

abbrev evaluated : Fallible Bool → EvaluationResult
evaluated (ok b) = record { matched = b; error = none }
evaluated (err e) = record { matched = false; error = some e }

abbrev evaluate_root : Option ConditionNode → EvaluationContext → EvaluationResult
evaluate_root none context = record { matched = false; error = some (text not_compiled) }
evaluate_root (some root) context = evaluated (evaluate_node root context)

unfoldable pub evaluate : CompiledCondition → EvaluationContext → EvaluationResult
unfolding evaluate_node
evaluate condition context = evaluate_root condition.root context
