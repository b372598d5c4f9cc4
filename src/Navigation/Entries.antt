-- ===== src/Navigation/Entries.antt =====
-- src/app/AppActions.cpp: the history as the list of its used entries.
use mydbg.Base.{
  ℕ, zero, suc, ◌+◌, ◌-◌, ◌≤◌, ◌<◌, ◌≡◌, refl, sym, ap, ◌∙◌, inl, inr, true, false, not, List, [],
  ◌∷◌, ◌++◌, arith, ◌==◌, if◌then◌else◌, Bool-cases, length, set, take, drop,
}
use mydbg.Navigation.State.{NavigationLocation, at_address, History, capacity}
use mydbg.Navigation.History.{record_departure, shift, drop_oldest, push_location, extend_history}
use mydbg.Navigation.Valid.{IsValid, Fits, record_departure-Fits, drop_oldest-Fits}

-- The entries in use, oldest first.
abbrev pub used : History → List NavigationLocation
used h = take h.size h.entries

-- The abstract history behind a jump from `here`: what led up to the current entry, the location that
-- is left, and the new one. What lay ahead is forgotten.
abbrev pub departed : NavigationLocation → ℕ → History → List NavigationLocation
departed here cursor h =
    if not (h.size == 0)
    then take h.index h.entries ++ here ∷ []
    else if not (cursor == 0)
    then here ∷ []
    else []

-- The oldest entry is given up where the array is full.
abbrev pub bounded : List NavigationLocation → List NavigationLocation
bounded l = if length l == capacity then drop 1 l else l

module _ {ℓ} {A : Type ℓ} where
  -- the first `n` elements and the next, which is written
  take-add-set :
      (xs : List A) (n : ℕ) (v : A)
      → n < length xs
      → take (n + 1) (set xs n v) ≡ take n xs ++ v ∷ []
  take-add-set [] n v h = absurd (omega arith)
  take-add-set (x ∷ xs) zero v h = refl
  take-add-set (x ∷ xs) (suc n) v h =
      let e : suc n + 1 ≡ suc (n + 1) = omega arith in
      rw e (ap (◌∷◌ x) (take-add-set xs n v (omega arith)))

  take-shift : (xs : List A) → take (length xs - 1) (shift xs) ≡ drop 1 xs
  take-shift [] = refl
  take-shift (x ∷ []) = refl
  take-shift (x ∷ y ∷ xs) =
      let e : suc (suc (length xs)) - 1 ≡ suc (suc (length xs) - 1) = omega arith in
      rw e (ap (◌∷◌ y) (take-shift (y ∷ xs)))

  take-length : (xs : List A) → take (length xs) xs ≡ xs
  take-length [] = refl
  take-length (x ∷ xs) = ap (◌∷◌ x) (take-length xs)

used-record_departure :
    (here : NavigationLocation) (cursor : ℕ) (h : History)
    → IsValid h
    → used (record_departure here cursor h) ≡ departed here cursor h
unfolding record_departure
used-record_departure here cursor h v = elim (Bool-cases (h.size == 0)) [
  | inr some_used ↦
      rw some_used
        (take-add-set h.entries h.index here (omega (arith, v.index_inside (ground arith))))
  | inl unused ↦ rw unused (elim (Bool-cases (cursor == 0)) [
    | inl at_zero ↦ rw at_zero (let e : h.size ≡ 0 = ground arith in rw e)
    | inr moved ↦ rw moved (
        let e : h.size ≡ 0 = ground arith in
        take-add-set h.entries h.size here (omega arith)
        ∙ ap (λ n. take n h.entries ++ here ∷ []) e)
  ])
]

pub length-take-of_le {ℓ} :
    {A : Type ℓ} (n : ℕ) (xs : List A) → n ≤ length xs → length (take n xs) ≡ n
length-take-of_le zero xs h = refl
length-take-of_le (suc n) [] h = absurd (omega arith)
length-take-of_le (suc n) (x ∷ xs) h = ap suc (length-take-of_le n xs (omega arith))

used-drop_oldest : (h : History) → Fits h → used (drop_oldest h) ≡ bounded (used h)
unfolding drop_oldest
used-drop_oldest h (whole, fits) =
    rw (length-take-of_le h.size h.entries (omega arith)) (elim (Bool-cases (h.size == 256)) [
      | inl full ↦
          let e : (h.size == length h.entries) ≡ true = ground arith in
          let size_is : h.size ≡ length h.entries = ground arith in
          rw (full, e)
            (ap (λ n. take (n - 1) (shift h.entries)) size_is
              ∙ take-shift h.entries
              ∙ ap (drop 1) (sym (take-length h.entries))
              ∙ ap (λ n. drop 1 (take n h.entries)) (sym size_is))
      | inr room ↦ let e : (h.size == length h.entries) ≡ false = ground arith in rw (room, e)
    ])

-- A jump to another address gives a history whose used entries are: those up to the current one, the
-- location that is left, without the oldest where that makes 256, and then the new address, which is
-- the current entry. (Where nothing is used yet, the location left counts only at a cursor other
-- than 0.)
pub used-extend_history :
    (address : ℕ) (here : NavigationLocation) (cursor : ℕ) (h : History)
    → IsValid h
    → let h' = extend_history address here cursor h in
      (used h' ≡ bounded (departed here cursor h) ++ at_address address ∷ [])
      × (h'.index + 1 ≡ h'.size)
unfolding extend_history push_location
used-extend_history address here cursor h v =
    let d = record_departure here cursor h in
    let fits = record_departure-Fits here cursor h v in
    let h' = drop_oldest d in
    let ((whole, _), room) = drop_oldest-Fits d fits in
    (
      take-add-set h'.entries h'.size (at_address address) (omega arith)
          ∙ ap (λ l. l ++ at_address address ∷ [])
              (used-drop_oldest d fits ∙ ap bounded (used-record_departure here cursor h v)),
      omega arith,
    )
