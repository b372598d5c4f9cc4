-- ===== src/Condition/Evaluate/Meaning.antt =====
-- src/backend/conditions/BreakpointCondition.cpp: what a condition says of the stopped target, and
-- that `evaluate` answers it.
use mydbg.Base.{
  ℕ, suc, ◌+◌, ◌≤◌, ◌<◌, ◌≡◌, refl, ◌≢◌, ◌↔◌, ◌⊎◌, inl, inr, Bool, true, false, not, some, [], ◌∷◌,
  arith, ◌==◌, length, tabulate,
}
use mydbg.Base.Bytes.{Bytes}
use Prim.Native.Nat.{bit_and}
use mathlib.Core.Path.{subst, subst₂}
use mathlib.Core.Bool.{false≢true}
use mydbg.Condition.Syntax.{
  CompareOperator, not_equal, less, less_equal, greater, greater_equal, NumericValue, number,
  register, ConditionNode, literal, truthy, negation, conjunction, disjunction, compare,
  masked_compare, string_compare,
}
use mydbg.Condition.WellFormed.{WellFormed, AreMasks}
use mydbg.Condition.Evaluate.{
  Fallible, ok, err, ◌>>=◌, EvaluationContext, or_unavailable, short_circuit, numeric_value,
  memory_bytes, compares, masked_equal, string_equal, evaluate_node,
}

abbrev pub HasValue : EvaluationContext → NumericValue → ℕ → Type 0
HasValue c (number value) v = v ≡ value
HasValue c (register name) v =
    (read : Bytes → Fallible ℕ) × (c.read_register ≡ some read) × (read name ≡ ok v)

abbrev pub Compares : CompareOperator → ℕ → ℕ → Type 0
Compares CompareOperator.equal l r = l ≡ r
Compares not_equal l r = l ≢ r
Compares less l r = l < r
Compares less_equal l r = l ≤ r
Compares greater l r = r < l
Compares greater_equal l r = r ≤ l

-- The memory, by offset, begins with a text of ASCII and a zero byte.
abbrev pub TextAt : (ℕ → ℕ) → Bytes → Type 0
TextAt byte [] = byte 0 ≡ 0
TextAt byte (t ∷ ts) = (t < 128) × (byte 0 ≡ t) × TextAt (λ i. byte (suc i)) ts

-- Each byte of the memory under its mask is the one expected.
abbrev pub MaskedAt : (ℕ → ℕ) → Bytes → Bytes → Type 0
MaskedAt byte (e ∷ es) (m ∷ ms) = (bit_and (byte 0) m ≡ e) × MaskedAt (λ i. byte (suc i)) es ms
MaskedAt byte _ _ = Unit

-- What is read at an address: `size` bytes, by offset.
abbrev pub HasMemory : EvaluationContext → NumericValue → ℕ → (ℕ → ℕ) → Type 0
HasMemory c address size byte =
    (a : ℕ) × (read : ℕ → ℕ → Fallible (ℕ → ℕ)) × HasValue c address a
    × (c.read_memory ≡ some read)
    × (read a size ≡ ok byte)

abbrev pub Meaning : EvaluationContext → ConditionNode → Type 0
Meaning c (literal b) = b ≡ true
Meaning c (truthy value) = (v : ℕ) × HasValue c value v × (v ≢ 0)
Meaning c (negation n) = ¬ Meaning c n
Meaning c (conjunction m n) = Meaning c m × Meaning c n
Meaning c (disjunction m n) = Meaning c m ⊎ Meaning c n
Meaning c (compare op left right) =
    (l : ℕ) × (r : ℕ) × HasValue c left l × HasValue c right r × Compares op l r
Meaning c (masked_compare address expected mask) =
    (byte : ℕ → ℕ) × HasMemory c address (length expected) byte × MaskedAt byte expected mask
Meaning c (string_compare address string) =
    (byte : ℕ → ℕ) × HasMemory c address (length string + 1) byte × TextAt byte string

-- The Boolean answers the statement.
abbrev pub Answers {ℓ} : Bool → Type ℓ → Type ℓ
Answers b P = (b ≡ true) ↔ P

-- Inversion of a successful bind.
pub bind-eq-ok {ℓ κ} :
    {A : Type ℓ} {B : Type κ} (m : Fallible A) (f : A → Fallible B) {b : B}
    → (m >>= f) ≡ ok b
    → (a : A) × (m ≡ ok a) × (f a ≡ ok b)
bind-eq-ok (ok a) f h = (a, refl, h)
bind-eq-ok (err e) f h = cc

pub ok-injective {ℓ} : {A : Type ℓ} {a b : A} → ok a ≡ ok b → a ≡ b
ok-injective e = cc

pub numeric_value-HasValue :
    (c : EvaluationContext) (value : NumericValue) {v : ℕ}
    → numeric_value value c ≡ ok v
    → HasValue c value v
unfolding numeric_value
numeric_value-HasValue c (number value) e = ground arith
numeric_value-HasValue c (register name) e =
    let (read, available, q) =
      bind-eq-ok (or_unavailable _ c.read_register) (λ read. read name) e in
    (read, ground arith, q)

HasValue-unique :
    (c : EvaluationContext) (value : NumericValue) {v w : ℕ}
    → HasValue c value v
    → HasValue c value w
    → v ≡ w
HasValue-unique c (number value) h k = ground arith
HasValue-unique c (register name) (f, p, q) (g, p', q') = cc

compares-Answers : (op : CompareOperator) (l r : ℕ) → Answers (compares op l r) (Compares op l r)
unfolding compares
compares-Answers CompareOperator.equal l r = ground arith
compares-Answers _ l r = ground arith

string_equal-Answers :
    (string : Bytes) (byte : ℕ → ℕ)
    → Answers (string_equal string (tabulate (length string + 1) byte)) (TextAt byte string)
unfolding string_equal
string_equal-Answers [] byte = ground arith
string_equal-Answers (t ∷ ts) byte =
    let ih = string_equal-Answers ts (λ i. byte (suc i)) in
    let e : suc (length ts) + 1 ≡ suc (length ts + 1) = omega arith in rw e (ground (arith, ih))

masked_equal-Answers :
    (expected mask : Bytes) (byte : ℕ → ℕ)
    → AreMasks expected mask
    → Answers
        (masked_equal (tabulate (length expected) byte) mask expected)
        (MaskedAt byte expected mask)
unfolding masked_equal
masked_equal-Answers [] [] byte h = ground arith
masked_equal-Answers [] (m ∷ ms) byte h = absurd h
masked_equal-Answers (e ∷ es) [] byte h = absurd h
masked_equal-Answers (e ∷ es) (m ∷ ms) byte h =
    let ih = masked_equal-Answers es ms (λ i. byte (suc i)) h.1 in ground (arith, ih)

HasMemory-of :
    (c : EvaluationContext) (address : NumericValue) (size : ℕ) {bytes : Bytes}
    → memory_bytes address size c ≡ ok bytes
    → (byte : ℕ → ℕ) × HasMemory c address size byte × (bytes ≡ tabulate size byte)
unfolding memory_bytes
HasMemory-of c address size e =
    let (a, a_is, e₁) = bind-eq-ok (numeric_value address c) _ e in
    let (read, available, e₂) = bind-eq-ok (or_unavailable _ c.read_memory) _ e₁ in
    let (byte, byte_is, e₃) = bind-eq-ok (read a size) _ e₂ in
    (byte, (a, read, numeric_value-HasValue c address a_is, ground arith, byte_is), ground arith)

HasMemory-unique :
    (c : EvaluationContext) (address : NumericValue) (size : ℕ) {f g : ℕ → ℕ}
    → HasMemory c address size f
    → HasMemory c address size g
    → f ≡ g
HasMemory-unique c address size (a, r, h, p, q) (a', r', h', p', q') =
    let same = HasValue-unique c address h h' in cc

-- Answers survive the connectives.
negation-Answers : {P : Type 0} (b : Bool) → Answers b P → Answers (not b) (¬ P)
negation-Answers true h = (λ e. cc, λ n. absurd (n (h.0 refl)))
negation-Answers false h = (λ e p. false≢true (h.1 p), λ n. refl)

Answers-ok : {P : Type 0} {a b : Bool} → ok a ≡ ok b → Answers a P → Answers b P
Answers-ok {P} e = subst (λ x. Answers x P) (ok-injective e)

module _ {P Q : Type 0} where
  conjunction-Answers :
      (l r : Fallible Bool) {b : Bool}
      → ((a : Bool) → l ≡ ok a → Answers a P)
      → ((a : Bool) → r ≡ ok a → Answers a Q)
      → short_circuit false l r ≡ ok b
      → Answers b (P × Q)
  conjunction-Answers (ok true) r h k e =
      let p = (h true refl).0 refl in ((λ x. (p, (k _ e).0 x)), (λ (p, q). (k _ e).1 q))
  conjunction-Answers (ok false) r h k e =
      Answers-ok e ((λ x. cc), (λ (p, q). absurd (false≢true ((h false refl).1 p))))
  conjunction-Answers (err m) r h k e = cc

  disjunction-Answers :
      (l r : Fallible Bool) {b : Bool}
      → ((a : Bool) → l ≡ ok a → Answers a P)
      → ((a : Bool) → r ≡ ok a → Answers a Q)
      → short_circuit true l r ≡ ok b
      → Answers b (P ⊎ Q)
  disjunction-Answers (ok true) r h k e =
      Answers-ok e ((λ x. inl ((h true refl).0 refl)), (λ _. refl))
  disjunction-Answers (ok false) r {b} h k e = (
    λ x. inr ((k b e).0 x),
    λ x. elim x [ inl p ↦ absurd (false≢true ((h false refl).1 p)) | inr q ↦ (k b e).1 q ],
  )
  disjunction-Answers (err m) r h k e = cc

module _ (c : EvaluationContext) where
  truthy-Answers :
      (value : NumericValue) (v : ℕ)
      → HasValue c value v
      → Answers (not (v == 0)) (Meaning c (truthy value))
  truthy-Answers value v h = (
    λ e. (v, h, ground arith),
    λ (w, k, nonzero). let same = HasValue-unique c value h k in ground arith,
  )

  compare-Answers :
      (op : CompareOperator) (left right : NumericValue) (l r : ℕ)
      → HasValue c left l
      → HasValue c right r
      → Answers (compares op l r) (Meaning c (compare op left right))
  compare-Answers op left right l r h k = (
    λ e. (l, r, h, k, (compares-Answers op l r).0 e),
    λ (l', r', h', k', holds).
        (compares-Answers op l r).1
          (subst₂ (Compares op) (HasValue-unique c left h' h) (HasValue-unique c right k' k) holds),
  )

  memory-Answers :
      (address : NumericValue) (size : ℕ) (byte : ℕ → ℕ) (P : (ℕ → ℕ) → Type 0) (b : Bool)
      → HasMemory c address size byte
      → Answers b (P byte)
      → Answers b ((f : ℕ → ℕ) × HasMemory c address size f × P f)
  memory-Answers address size byte P b h k =
      (λ e. (byte, h, k.0 e), λ (f, h', p). k.1 (subst P (HasMemory-unique c address size h' h) p))

  -- When the evaluation of a well-formed condition ends without an error, its result is true exactly
  -- where the condition holds of the registers and the memory that it reads. A comparison with a string
  -- holds where the string is ASCII and the memory begins with it and a zero byte: a string with a
  -- character from 128 on never matches.
  pub evaluate_node-Meaning :
      (n : ConditionNode) {b : Bool}
      → WellFormed n
      → evaluate_node n c ≡ ok b
      → Answers b (Meaning c n)
  unfolding evaluate_node
  evaluate_node-Meaning (literal b) w e = Answers-ok e (λ x. x, λ x. x)
  evaluate_node-Meaning (truthy value) w e =
      let (v, v_is, q) = bind-eq-ok (numeric_value value c) _ e in
      Answers-ok q (truthy-Answers value v (numeric_value-HasValue c value v_is))
  evaluate_node-Meaning (negation n) w e =
      let (a, a_is, q) = bind-eq-ok (evaluate_node n c) _ e in
      Answers-ok q (negation-Answers a (evaluate_node-Meaning n w a_is))
  evaluate_node-Meaning (conjunction m n) w e =
      conjunction-Answers (evaluate_node m c) (evaluate_node n c) (λ a. evaluate_node-Meaning m w.0)
        (λ a. evaluate_node-Meaning n w.1) e
  evaluate_node-Meaning (disjunction m n) w e =
      disjunction-Answers (evaluate_node m c) (evaluate_node n c) (λ a. evaluate_node-Meaning m w.0)
        (λ a. evaluate_node-Meaning n w.1) e
  evaluate_node-Meaning (compare op left right) w e =
      let (l, l_is, e₁) = bind-eq-ok (numeric_value left c) _ e in
      let (r, r_is, q) = bind-eq-ok (numeric_value right c) _ e₁ in
      Answers-ok q (
        compare-Answers op left right l r (numeric_value-HasValue c left l_is)
          (numeric_value-HasValue c right r_is))
  evaluate_node-Meaning (masked_compare address expected mask) w e =
      let (bytes, bytes_are, q) = bind-eq-ok (memory_bytes address (length expected) c) _ e in
      let (byte, h, same) = HasMemory-of c address (length expected) bytes_are in
      Answers-ok q (
        memory-Answers address (length expected) byte (λ f. MaskedAt f expected mask) _ h
          (rw same (masked_equal-Answers expected mask byte w.1.masks)))
  evaluate_node-Meaning (string_compare address string) w e =
      let (bytes, bytes_are, q) = bind-eq-ok (memory_bytes address (length string + 1) c) _ e in
      let (byte, h, same) = HasMemory-of c address (length string + 1) bytes_are in
      Answers-ok q (
        memory-Answers address (length string + 1) byte (λ f. TextAt f string) _ h
          (rw same (string_equal-Answers string byte)))
