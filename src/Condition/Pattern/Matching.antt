-- ===== src/Condition/Pattern/Matching.antt =====
-- src/backend/conditions/BreakpointCondition.cpp: what `decode_pattern` accepts, and what the loop of
-- MaskedCompare then tests.
use mydbg.Base.{
  ℕ, ◌/◌, ◌%◌, ◌≤◌, ◌<◌, ◌≡◌, refl, ◌↔◌, true, Option, none, some, [], ◌∷◌, arith, ◌==◌,
  and-eq-true, length, All,
}
use mydbg.Base.Bytes.{Bytes}
use Prim.Native.Nat.{bit_and}
use mydbg.Condition.WellFormed.{AreMasks, IsPattern}
use mydbg.Condition.Evaluate.{masked_equal}
use mydbg.Condition.Pattern.{
  decode_byte, decode_bytes, compact, decoded, decode_compact, decode_pattern, max_pattern,
  push_byte,
}
use mydbg.Condition.Pattern.Nibbles.{
  NibbleMatches, decode_byte-IsByte, IsByte-IsMask, IsByte_matches,
}

-- The memory has, nibble for nibble, what the text of the pattern asks for.
abbrev pub PatternMatches : Bytes → Bytes → Type 0
PatternMatches (high ∷ low ∷ cs) (b ∷ bs) =
    NibbleMatches high (b / 16) × NibbleMatches low (b % 16) × PatternMatches cs bs
PatternMatches (high ∷ low ∷ cs) [] = ⊥
PatternMatches _ _ = Unit

abbrev pub AreBytes : Bytes → Type 0
AreBytes = All (λ b. b < 256)

-- The parts of a decoded text that begins with two characters.
pub record Split (high low : ℕ) (cs es ms : Bytes) : Type 0 where
  pub e : ℕ
  pub m : ℕ
  pub es' : Bytes
  pub ms' : Bytes
  pub first : decode_byte high low ≡ some (e, m)
  pub others : decode_bytes cs ≡ some (es', ms')
  pub es_is : es ≡ e ∷ es'
  pub ms_is : ms ≡ m ∷ ms'

push_byte-some :
    (o : Option (ℕ × ℕ)) (p : Option (Bytes × Bytes)) {es ms : Bytes}
    → push_byte o p ≡ some (es, ms)
    → (e : ℕ) × (m : ℕ) × (es' : Bytes) × (ms' : Bytes) × (o ≡ some (e, m))
      × (p ≡ some (es', ms'))
      × (es ≡ e ∷ es')
      × (ms ≡ m ∷ ms')
push_byte-some (some (e, m)) (some (es', ms')) q =
    (e, m, es', ms', refl, refl, ground arith, ground arith)
push_byte-some none p q = cc
push_byte-some (some x) none q = cc

decode_bytes-Split :
    (high low : ℕ) (cs : Bytes) {es ms : Bytes}
    → decode_bytes (high ∷ low ∷ cs) ≡ some (es, ms)
    → Split high low cs es ms
unfolding decode_bytes
decode_bytes-Split high low cs q =
    let (e, m, es', ms', first, others, es_is, ms_is) =
      push_byte-some (decode_byte high low) (decode_bytes cs) q in
    record {
      e = e;
      m = m;
      es' = es';
      ms' = ms';
      first = first;
      others = others;
      es_is = es_is;
      ms_is = ms_is;
    }

nothing-AreMasks :
    {es ms : Bytes}
    → ◌≡◌ {A = Option (Bytes × Bytes)} (some ([], [])) (some (es, ms))
    → AreMasks es ms × (length es ≡ 0)
nothing-AreMasks {es = []} {ms = []} q = (tt, refl)
nothing-AreMasks {es = []} {ms = m ∷ ms} q = cc
nothing-AreMasks {es = e ∷ es} q = cc

pub decode_bytes-AreMasks :
    (cs es ms : Bytes)
    → decode_bytes cs ≡ some (es, ms)
    → AreMasks es ms × (length es ≡ length cs / 2)
unfolding decode_bytes
decode_bytes-AreMasks [] es ms q = nothing-AreMasks q
decode_bytes-AreMasks (c ∷ []) es ms q = nothing-AreMasks q
decode_bytes-AreMasks (high ∷ low ∷ cs) es ms q =
    let r = decode_bytes-Split high low cs q in
    let (good, size) = decode_bytes-AreMasks cs r.es' r.ms' r.others in
    rw (r.es_is, r.ms_is)
      ((IsByte-IsMask high low (decode_byte-IsByte high low r.first), good), omega arith)

nothing_matched :
    {es ms : Bytes} (bs : Bytes)
    → ◌≡◌ {A = Option (Bytes × Bytes)} (some ([], [])) (some (es, ms))
    → masked_equal bs ms es ≡ true
unfolding masked_equal
nothing_matched [] q = refl
nothing_matched {es = []} {ms = []} (b ∷ bs) q = refl
nothing_matched {es = []} {ms = m ∷ ms} (b ∷ bs) q = cc
nothing_matched {es = e ∷ es} (b ∷ bs) q = cc

masked_equal_lem :
    (cs bs es ms : Bytes)
    → decode_bytes cs ≡ some (es, ms)
    → AreBytes bs
    → length bs ≡ length es
    → (masked_equal bs ms es ≡ true) ↔ PatternMatches cs bs
unfolding decode_bytes masked_equal
masked_equal_lem [] bs es ms q small same = (λ _. tt, λ _. nothing_matched bs q)
masked_equal_lem (c ∷ []) bs es ms q small same = (λ _. tt, λ _. nothing_matched bs q)
masked_equal_lem (high ∷ low ∷ cs) [] es ms q small same =
    let r = decode_bytes-Split high low cs q in absurd (ground (arith, r.es_is))
masked_equal_lem (high ∷ low ∷ cs) (b ∷ bs) es ms q small same =
    let r = decode_bytes-Split high low cs q in
    let ih = masked_equal_lem cs bs r.es' r.ms' r.others small.1 (ground arith) in
    let here = IsByte_matches high low (decode_byte-IsByte high low r.first) b small.0 in
    rw (r.es_is, r.ms_is)
      (
        (λ e.
            let (first, others) = and-eq-true (bit_and b r.m == r.e) _ e in
            let (h, l) = here.0 first in (h, l, ih.0 others)),
        (λ (h, l, others). ground (arith, here.1 (h, l), ih.1 others)),
      )

decode_compact-decoded :
    (cs : Bytes) {es ms : Bytes}
    → decode_compact cs ≡ decoded es ms
    → (decode_bytes cs ≡ some (es, ms)) × (2 ≤ length cs) × (length cs / 2 ≤ max_pattern)
unfolding decode_compact
decode_compact-decoded cs q = ground arith

pub decode_pattern-decoded :
    (text : Bytes) {es ms : Bytes}
    → decode_pattern text ≡ decoded es ms
    → (decode_bytes (compact text) ≡ some (es, ms)) × IsPattern es ms
decode_pattern-decoded text {es} {ms} q =
    let cs = compact text in
    let (some_is, large, small) =
      decode_compact-decoded cs {es = es} {ms = ms} (unfold decode_pattern in q) in
    let (good, size) = decode_bytes-AreMasks cs es ms some_is in
    (some_is, record { masks = good; not_empty = omega arith; fits = omega arith })

-- The test of MaskedCompare against a pattern that was accepted holds exactly where the memory has
-- every nibble that the text of the pattern writes, its spaces left out and `?` standing for any.
pub decode_pattern-masked_equal :
    (text bs es ms : Bytes)
    → decode_pattern text ≡ decoded es ms
    → AreBytes bs
    → length bs ≡ length es
    → (masked_equal bs ms es ≡ true) ↔ PatternMatches (compact text) bs
decode_pattern-masked_equal text bs es ms q =
    masked_equal_lem (compact text) bs es ms (decode_pattern-decoded text q).0
