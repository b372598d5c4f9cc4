-- ===== src/Image/Runs.antt =====
-- The texts that src/backend/lldb/LldbEngineScanning.cpp finds in a file.
use mydbg.Base.{
  ℕ, zero, suc, ◌+◌, ◌≤◌, ◌≡◌, refl, sym, ap, ◌∙◌, inl, inr, Bool, true, [], ◌∷◌, ◌++◌,
  append_assoc, arith, leb, ◌==◌, if◌then◌else◌, leb→le, Bool-cases, length, take, drop, take_while,
  all, All, length-append, Stops, all-take_while,
}
use mydbg.Base.Bytes.{Bytes}
use mydbg.Image.Strings.{is_binary_string_character, Found, ascii_texts}

-- The text stands at its offset, has only printable characters and tabs, and is not followed by another
-- of them.
abbrev pub IsRun : Bytes → Found → Type 0
IsRun bytes (offset, value) =
    (before after : Bytes) × (bytes ≡ before ++ (value ++ after))
    × (length before ≡ offset)
    × (all is_binary_string_character value ≡ true)
    × Stops is_binary_string_character after

run_splits :
    (p : ℕ → Bool) (xs : Bytes) → xs ≡ take_while p xs ++ drop (length (take_while p xs)) xs
run_splits p [] = refl
run_splits p (x ∷ xs) = ground (arith, run_splits p xs)

run-Stops : (p : ℕ → Bool) (xs : Bytes) → Stops p (drop (length (take_while p xs)) xs)
run-Stops p [] = tt
run-Stops p (x ∷ xs) = elim (Bool-cases (p x)) [ inl h ↦ rw h (run-Stops p xs) | inr h ↦ rw h h ]

take-drop : (n : ℕ) (xs : Bytes) → take n xs ++ drop n xs ≡ xs
take-drop zero xs = refl
take-drop (suc n) [] = refl
take-drop (suc n) (x ∷ xs) = ap (λ ys. x ∷ ys) (take-drop n xs)

length-take : (n : ℕ) (xs : Bytes) → n ≤ length xs → length (take n xs) ≡ n
length-take zero xs h = refl
length-take (suc n) [] h = absurd (omega (arith, h))
length-take (suc n) (x ∷ xs) h = ap suc (length-take n xs (omega (arith, h)))

length-take_while : (p : ℕ → Bool) (xs : Bytes) → length (take_while p xs) ≤ length xs
length-take_while p [] = omega arith
length-take_while p (x ∷ xs) = ground (arith, length-take_while p xs)

size_fits :
    (c : ℕ) (cs : Bytes)
    → (if length (take_while is_binary_string_character (c ∷ cs)) == 0
        then 1
        else length (take_while is_binary_string_character (c ∷ cs)))
      ≤ length (c ∷ cs)
size_fits c cs = ground (arith, length-take_while is_binary_string_character (c ∷ cs))

module _ (bytes : Bytes) (minimum_length : ℕ) where
  abbrev pub IsText : Found → Type 0
  IsText found = IsRun bytes found × (minimum_length ≤ length found.1)

  first-IsRun :
      (offset : ℕ) (before rest : Bytes)
      → bytes ≡ before ++ rest
      → length before ≡ offset
      → IsRun bytes (offset, take_while is_binary_string_character rest)
  first-IsRun offset before rest same here = (
    before,
    drop (length (take_while is_binary_string_character rest)) rest,
    same ∙ ap (λ xs. before ++ xs) (run_splits is_binary_string_character rest),
    here,
    all-take_while is_binary_string_character rest,
    run-Stops is_binary_string_character rest,
  )

  -- From an offset on, whatever the fuel, each text that is found is a run of the file of at least the
  -- minimal length.
  pub ascii_texts-IsText :
      (fuel offset : ℕ) (before rest : Bytes)
      → bytes ≡ before ++ rest
      → length before ≡ offset
      → All IsText (ascii_texts minimum_length fuel offset rest)
  unfolding ascii_texts
  ascii_texts-IsText fuel offset before [] same here = tt
  ascii_texts-IsText zero offset before (c ∷ cs) same here = tt
  ascii_texts-IsText (suc fuel) offset before (c ∷ cs) same here =
      let run = take_while is_binary_string_character (c ∷ cs) in
      let size = if length run == 0 then 1 else length run in
      let fits = size_fits c cs in
      let later =
        ascii_texts-IsText fuel (offset + size) (before ++ take size (c ∷ cs)) (drop size (c ∷ cs))
          (same
            ∙ ap (λ xs. before ++ xs) (sym (take-drop size (c ∷ cs)))
            ∙ sym (append_assoc before (take size (c ∷ cs)) (drop size (c ∷ cs))))
          (length-append before (take size (c ∷ cs))
            ∙ omega (arith, here, length-take size (c ∷ cs) fits)) in
      let is_run = first-IsRun offset before (c ∷ cs) same here in
      elim (Bool-cases (leb minimum_length (length run))) [
        | inl h ↦ rw h ((is_run, leb→le minimum_length (length run) h), later)
        | inr h ↦ rw h later
      ]
