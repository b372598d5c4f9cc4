-- ===== src/Image/Complete.antt =====
-- Every text of a file is among those that src/backend/lldb/LldbEngineScanning.cpp finds.
use mydbg.Base.{
  ℕ, zero, suc, ◌+◌, ◌≤◌, ◌<◌, ◌≡◌, refl, sym, ap, ◌⊎◌, inl, inr, Bool, true, false, List, [], ◌∷◌,
  ◌++◌, arith, leb, ◌==◌, if◌then◌else◌, length, drop, take_while, all, length-append, length-drop,
  Stops, take_while-append,
}
use mydbg.Base.Bytes.{Bytes}
use mathlib.Core.Path.{subst}
use mydbg.Image.Strings.{is_binary_string_character, Found, ascii_texts}

-- Its last entry, if any, fails the test.
abbrev pub EndsOutside : (ℕ → Bool) → Bytes → Type 0
EndsOutside p [] = Unit
EndsOutside p (x ∷ []) = p x ≡ false
EndsOutside p (x ∷ y ∷ ys) = EndsOutside p (y ∷ ys)

abbrev pub Occurs : Found → List Found → Type 0
Occurs found [] = ⊥
Occurs found (x ∷ xs) = (found ≡ x) ⊎ Occurs found xs

module _ (p : ℕ → Bool) where
  ends_run :
      (x : ℕ) (xs ys : Bytes)
      → EndsOutside p (x ∷ xs)
      → (take_while p ((x ∷ xs) ++ ys) ≡ take_while p (x ∷ xs))
        × (length (take_while p (x ∷ xs)) < length (x ∷ xs))
  ends_run x [] ys h = ground (arith, h)
  ends_run x (y ∷ xs) ys h = ground (arith, ends_run y xs ys h)

  drop-EndsOutside : (n : ℕ) (xs : Bytes) → EndsOutside p xs → EndsOutside p (drop n xs)
  drop-EndsOutside zero xs h = h
  drop-EndsOutside (suc n) [] h = h
  drop-EndsOutside (suc n) (x ∷ []) h = drop-EndsOutside n [] tt
  drop-EndsOutside (suc n) (x ∷ y ∷ ys) h = drop-EndsOutside n (y ∷ ys) h

drop_within : (n : ℕ) (xs ys : Bytes) → n ≤ length xs → drop n (xs ++ ys) ≡ drop n xs ++ ys
drop_within zero xs ys h = refl
drop_within (suc n) [] ys h = absurd (omega (arith, h))
drop_within (suc n) (x ∷ xs) ys h = drop_within n xs ys (omega (arith, h))

abbrev size_of : Bytes → ℕ
size_of run = if length run == 0 then 1 else length run

size_bounds : (run : Bytes) (n : ℕ) → length run < n → (1 ≤ size_of run) × (size_of run ≤ n)
size_bounds run n h = ground (arith, h)

Occurs-later :
    (found x : Found) (others : List Found) (b : Bool)
    → Occurs found others
    → Occurs found (if b then x ∷ others else others)
Occurs-later found x others true h = inr h
Occurs-later found x others false h = h

le→leb : (m n : ℕ) → m ≤ n → leb m n ≡ true
le→leb m n h = ground (arith, h)

less_left :
    (n fuel : ℕ) (xs ys : Bytes)
    → 1 ≤ n
    → n ≤ length xs
    → length (xs ++ ys) ≤ suc fuel
    → length (drop n xs ++ ys) ≤ fuel
less_left n fuel xs ys some_bytes within enough = omega (
  arith,
  some_bytes,
  within,
  enough,
  length-append xs ys,
  length-append (drop n xs) ys,
  length-drop n xs,
)

-- A run of at least the minimal length, which is not 0, with no character of a text before or behind
-- it, is among the texts that are found, if the fuel is at least the length of the rest of the file.
pub ascii_texts-Occurs :
    (minimum_length fuel offset : ℕ) (before value after : Bytes)
    → 1 ≤ minimum_length
    → minimum_length ≤ length value
    → all is_binary_string_character value ≡ true
    → EndsOutside is_binary_string_character before
    → Stops is_binary_string_character after
    → length (before ++ (value ++ after)) ≤ fuel
    → Occurs
        (offset + length before, value)
        (ascii_texts minimum_length fuel offset (before ++ (value ++ after)))
unfolding ascii_texts
ascii_texts-Occurs minimum_length fuel offset [] [] after positive long printable ends stops
      enough =
    absurd (omega (arith, positive, long))
ascii_texts-Occurs minimum_length zero offset [] (v ∷ vs) after positive long printable ends stops
      enough =
    absurd (omega (arith, enough))
ascii_texts-Occurs minimum_length (suc fuel) offset [] (v ∷ vs) after positive long printable ends
      stops enough =
    let is_value = take_while-append is_binary_string_character (v ∷ vs) after printable stops in
    first_found _ _ is_value long _
  where
    first_found :
        (run value : Bytes)
        → run ≡ value
        → minimum_length ≤ length value
        → (others : List Found)
        → Occurs
            (offset + 0, value)
            (if leb minimum_length (length run) then (offset, run) ∷ others else others)
    first_found run value same h others =
        let fits = le→leb minimum_length (length value) h in
        rw (same, fits) (inl (ap (λ (o : ℕ). (o, value)) (omega arith)))
ascii_texts-Occurs minimum_length zero offset (c ∷ b) value after positive long printable ends stops
      enough =
    absurd (omega (arith, enough))
ascii_texts-Occurs minimum_length (suc fuel) offset (c ∷ b) value after positive long printable ends
      stops enough =
    let (same, shorter) = ends_run is_binary_string_character c b (value ++ after) ends in
    let run = take_while is_binary_string_character (c ∷ b) in
    let (some_bytes, within) = size_bounds run (length (c ∷ b)) shorter in
    let rest = drop_within (size_of run) (c ∷ b) (value ++ after) within in
    let left = length-drop (size_of run) (c ∷ b) in
    let later =
      ascii_texts-Occurs minimum_length fuel (offset + size_of run) (drop (size_of run) (c ∷ b))
        value after positive long printable
        (drop-EndsOutside is_binary_string_character (size_of run) (c ∷ b) ends) stops
        (less_left (size_of run) fuel (c ∷ b) (value ++ after) some_bytes within enough) in
    let moved =
      subst
        (λ (xs : Bytes).
          Occurs (offset + size_of run + length (drop (size_of run) (c ∷ b)), value)
            (ascii_texts minimum_length fuel (offset + size_of run) xs))
        (sym rest) later in
    let there =
      subst
        (λ (n : ℕ).
          Occurs (n, value)
            (ascii_texts minimum_length fuel (offset + size_of run)
              (drop (size_of run) ((c ∷ b) ++ (value ++ after)))))
        (omega (arith, left, some_bytes, within)) moved in
    rw same (Occurs-later _ _ _ _ there)
