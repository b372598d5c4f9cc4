-- ===== src/Utf8/RoundTrip.antt =====
-- What `append_utf8` writes is what `valid_utf8` accepts.
use mydbg.Base.{
  ℕ, suc, ◌+◌, ◌*◌, ◌/◌, ◌%◌, ◌^◌, ◌≤◌, ◌<◌, ◌≡◌, refl, ap, ◌∙◌, ◌⊎◌, inl, inr, true, not, ◌&&◌,
  some, [], ◌∷◌, ◌++◌, arith, ltb, ◌==◌, if◌then◌else◌, ltb→lt, Bool-cases,
}
use mydbg.Base.Bytes.{Bytes}
use Prim.Native.Nat.{bit_and, bit_or}
use mydbg.Base.Words.{all_below, all_below_sound}
use mydbg.Base.Bits.{bit_or_low}
use mydbg.Utf8.{
  Pending, idle, sequence, lead, completed, advance, valid_from, valid_utf8, append_utf8,
}

lead_table :
    all_below 64 (λ r.
      (if ltb r 32 then bit_and (192 + r) 0xe0 == 0xc0 && bit_and (192 + r) 0x1f == r else true)
      && (if ltb r 16
          then not (bit_and (224 + r) 0xe0 == 0xc0)
            && bit_and (224 + r) 0xf0 == 0xe0
            && bit_and (224 + r) 0x0f == r
          else true)
      && (if ltb r 8
          then not (bit_and (240 + r) 0xe0 == 0xc0)
            && not (bit_and (240 + r) 0xf0 == 0xe0)
            && bit_and (240 + r) 0xf8 == 0xf0
            && bit_and (240 + r) 0x07 == r
          else true)
      && bit_and (128 + r) 0xc0 == 0x80
      && bit_and (128 + r) 0x3f == r)
    ≡ true
unfolding all_below
lead_table = refl

lead-two : (r : ℕ) → r < 32 → advance idle (192 + r) ≡ some (sequence 1 r 0x80)
unfolding advance lead
lead-two r h = ground (arith, all_below_sound 64 _ r lead_table (omega arith))

lead-three : (r : ℕ) → r < 16 → advance idle (224 + r) ≡ some (sequence 2 r 0x800)
unfolding advance lead
lead-three r h = ground (arith, all_below_sound 64 _ r lead_table (omega arith))

lead-four : (r : ℕ) → r < 8 → advance idle (240 + r) ≡ some (sequence 3 r 0x10000)
unfolding advance lead
lead-four r h = ground (arith, all_below_sound 64 _ r lead_table (omega arith))

shifted :
    (codepoint r : ℕ)
    → codepoint < 2 ^ 20
    → r < 64
    → bit_or (codepoint * 64 % 2 ^ 32) r ≡ codepoint * 64 + r
shifted codepoint r h l =
    ap (λ (t : ℕ). bit_or t r) {x = codepoint * 64 % 2 ^ 32} {y = codepoint * 2 ^ 6} (omega arith)
    ∙ bit_or_low 6 codepoint r l
    ∙ omega arith

advance-sequence :
    (count codepoint minimum r : ℕ)
    → codepoint < 2 ^ 20
    → r < 64
    → advance (sequence count codepoint minimum) (128 + r)
      ≡ completed count (codepoint * 64 + r) minimum
unfolding advance
advance-sequence count codepoint minimum r h l =
    ground (arith, all_below_sound 64 _ r lead_table l, shifted codepoint r h l)

continuation : (r : ℕ) → r < 64 → bit_or 0x80 r ≡ 128 + r
continuation r h = bit_or_low 6 2 r h

append-two : (v : ℕ) → 128 ≤ v → v < 2048 → append_utf8 v ≡ (192 + v / 64) ∷ (128 + v % 64) ∷ []
unfolding append_utf8
append-two v h l =
    ground (arith, bit_or_low 6 3 (v / 64) (omega arith), continuation (v % 64) (omega arith))

append-three :
    (v : ℕ)
    → 2048 ≤ v
    → v < 65536
    → append_utf8 v ≡ (224 + v / 4096) ∷ (128 + v / 64 % 64) ∷ (128 + v % 64) ∷ []
unfolding append_utf8
append-three v h l = ground (
  arith,
  bit_or_low 5 7 (v / 4096) (omega arith),
  continuation (v / 64 % 64) (omega arith),
  continuation (v % 64) (omega arith),
)

append-four :
    (v : ℕ)
    → 65536 ≤ v
    → v < 1114112
    → append_utf8 v
      ≡ (240 + v / 262144) ∷ (128 + v / 4096 % 64) ∷ (128 + v / 64 % 64) ∷ (128 + v % 64) ∷ []
unfolding append_utf8
append-four v h l = ground (
  arith,
  bit_or_low 4 15 (v / 262144) (omega arith),
  continuation (v / 4096 % 64) (omega arith),
  continuation (v / 64 % 64) (omega arith),
  continuation (v % 64) (omega arith),
)

step :
    (p q : Pending) (b : ℕ) (bytes : Bytes)
    → advance p b ≡ some q
    → valid_from p (b ∷ bytes) ≡ valid_from q bytes
unfolding valid_from
step idle q b bytes h = ground (arith, h)
step (sequence count codepoint minimum) q b bytes h = ground (arith, h)

-- The code points that UTF-8 writes: those that are no surrogates.
abbrev pub IsScalar : ℕ → Type 0
IsScalar v = (v < 0x110000) × ((v < 0xd800) ⊎ (0xdfff < v))

last-byte :
    (codepoint minimum r v : ℕ) (rest : Bytes)
    → codepoint < 2 ^ 20
    → r < 64
    → codepoint * 64 + r ≡ v
    → IsScalar v
    → minimum ≤ v
    → valid_from (sequence 1 codepoint minimum) ((128 + r) ∷ rest) ≡ valid_from idle rest
last-byte codepoint minimum r v rest h l e s m =
    step (sequence 1 codepoint minimum) idle (128 + r) rest
      (advance-sequence 1 codepoint minimum r h l ∙ ground (arith, e, s, m))

middle-byte :
    (count codepoint minimum r next : ℕ) (bytes : Bytes)
    → codepoint < 2 ^ 20
    → r < 64
    → codepoint * 64 + r ≡ next
    → valid_from (sequence (suc (suc count)) codepoint minimum) ((128 + r) ∷ bytes)
      ≡ valid_from (sequence (suc count) next minimum) bytes
middle-byte count codepoint minimum r next bytes h l e =
    step (sequence (suc (suc count)) codepoint minimum) (sequence (suc count) next minimum)
      (128 + r) bytes
      (advance-sequence (suc (suc count)) codepoint minimum r h l ∙ ground (arith, e))

ascii : (v : ℕ) → v < 128 → advance idle v ≡ some idle
unfolding advance lead
ascii v h = ground (arith, h)

one-byte :
    (v : ℕ) (rest : Bytes)
    → v < 128
    → valid_from idle (append_utf8 v ++ rest) ≡ valid_from idle rest
unfolding append_utf8
one-byte v rest h =
    ap (λ (t : Bytes). valid_from idle (t ++ rest)) {x = append_utf8 v} {y = v ∷ []}
      (ground (arith, h))
    ∙ step idle idle v rest (ascii v h)

two-bytes :
    (v : ℕ) (rest : Bytes)
    → 128 ≤ v
    → v < 2048
    → IsScalar v
    → valid_from idle (append_utf8 v ++ rest) ≡ valid_from idle rest
two-bytes v rest h l s =
    ap (λ (t : Bytes). valid_from idle (t ++ rest)) (append-two v h l)
    ∙ step idle (sequence 1 (v / 64) 128) (192 + v / 64) ((128 + v % 64) ∷ rest)
        (lead-two (v / 64) (omega arith))
    ∙ last-byte (v / 64) 128 (v % 64) v rest (omega arith) (omega arith) (omega arith) s h

three-bytes :
    (v : ℕ) (rest : Bytes)
    → 2048 ≤ v
    → v < 65536
    → IsScalar v
    → valid_from idle (append_utf8 v ++ rest) ≡ valid_from idle rest
three-bytes v rest h l s =
    ap (λ (t : Bytes). valid_from idle (t ++ rest)) (append-three v h l)
    ∙ step idle (sequence 2 (v / 4096) 2048) (224 + v / 4096)
        ((128 + v / 64 % 64) ∷ (128 + v % 64) ∷ rest) (lead-three (v / 4096) (omega arith))
    ∙ middle-byte 0 (v / 4096) 2048 (v / 64 % 64) (v / 64) ((128 + v % 64) ∷ rest) (omega arith)
        (omega arith) (omega arith)
    ∙ last-byte (v / 64) 2048 (v % 64) v rest (omega arith) (omega arith) (omega arith) s h

four-bytes :
    (v : ℕ) (rest : Bytes)
    → 65536 ≤ v
    → IsScalar v
    → valid_from idle (append_utf8 v ++ rest) ≡ valid_from idle rest
four-bytes v rest h s =
    ap (λ (t : Bytes). valid_from idle (t ++ rest)) (append-four v h s.0)
    ∙ step idle (sequence 3 (v / 262144) 65536) (240 + v / 262144)
        ((128 + v / 4096 % 64) ∷ (128 + v / 64 % 64) ∷ (128 + v % 64) ∷ rest)
        (lead-four (v / 262144) (omega (arith, s.0)))
    ∙ middle-byte 1 (v / 262144) 65536 (v / 4096 % 64) (v / 4096)
        ((128 + v / 64 % 64) ∷ (128 + v % 64) ∷ rest) (omega (arith, s.0)) (omega arith)
        (omega arith)
    ∙ middle-byte 0 (v / 4096) 65536 (v / 64 % 64) (v / 64) ((128 + v % 64) ∷ rest)
        (omega (arith, s.0)) (omega arith) (omega arith)
    ∙ last-byte (v / 64) 65536 (v % 64) v rest (omega (arith, s.0)) (omega arith) (omega arith) s h

-- What `append_utf8` writes for a code point that is no surrogate is accepted in front of any text:
-- `valid_utf8` then depends on that text alone.
pub valid_utf8-append_utf8 :
    (v : ℕ) (rest : Bytes) → IsScalar v → valid_utf8 (append_utf8 v ++ rest) ≡ valid_utf8 rest
unfolding valid_utf8
valid_utf8-append_utf8 v rest s = elim (Bool-cases (ltb v 128)) [
  | inl e ↦ one-byte v rest (ltb→lt v 128 e)
  | inr e₁ ↦ elim (Bool-cases (ltb v 2048)) [
    | inl e ↦ two-bytes v rest (ground (arith, e₁)) (ltb→lt v 2048 e) s
    | inr e₂ ↦ elim (Bool-cases (ltb v 65536)) [
      | inl e ↦ three-bytes v rest (ground (arith, e₂)) (ltb→lt v 65536 e) s
      | inr e ↦ four-bytes v rest (ground (arith, e)) s
    ]
  ]
]
