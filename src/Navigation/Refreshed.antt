-- ===== src/Navigation/Refreshed.antt =====
-- src/app/AppActions.cpp: the entry under the index, which a traversal brings up to date, and the entry
-- that it goes to.
use mydbg.Base.{
  ℕ, zero, suc, ◌<◌, ◌≡◌, refl, sym, ap, ◌∙◌, ◌≢◌, ◌⊎◌, inl, inr, some, List, [], ◌∷◌, ◌++◌, arith,
  length, get_or, set, take,
}
use native.Mathlib.Decide.{ℕ_discrete}
use mydbg.Navigation.State.{NavigationLocation, at_address, UiState}
use mydbg.Navigation.History.{
  current_navigation_location, go_to, restore, entry_at, refresh_current,
}

module _ {ℓ} {A : Type ℓ} (d : A) where
  pub get_or-take : (n : ℕ) (xs : List A) (i : ℕ) → i < n → get_or (take n xs) i d ≡ get_or xs i d
  get_or-take zero xs i h = absurd (omega arith)
  get_or-take (suc n) [] i h = refl
  get_or-take (suc n) (x ∷ xs) zero h = refl
  get_or-take (suc n) (x ∷ xs) (suc i) h = get_or-take n xs i (omega arith)

  pub get_or-append : (l : List A) (x : A) (r : List A) → get_or (l ++ x ∷ r) (length l) d ≡ x
  get_or-append [] x r = refl
  get_or-append (y ∷ l) x r = get_or-append l x r

  pub get_or-append_second :
      (l : List A) (x y : A) (r : List A) → get_or (l ++ x ∷ y ∷ r) (suc (length l)) d ≡ y
  get_or-append_second [] x y r = refl
  get_or-append_second (z ∷ l) x y r = get_or-append_second l x y r

  get_or-set : (xs : List A) (i : ℕ) (v : A) → i < length xs → get_or (set xs i v) i d ≡ v
  get_or-set [] i v h = absurd (omega arith)
  get_or-set (x ∷ xs) zero v h = refl
  get_or-set (x ∷ xs) (suc i) v h = get_or-set xs i v (omega arith)

  pub get_or-set_ne :
      (xs : List A) (i j : ℕ) (v : A) → i ≢ j → get_or (set xs i v) j d ≡ get_or xs j d
  get_or-set_ne [] i j v h = refl
  get_or-set_ne (x ∷ xs) zero zero v h = absurd (h refl)
  get_or-set_ne (x ∷ xs) zero (suc j) v h = refl
  get_or-set_ne (x ∷ xs) (suc i) zero v h = refl
  get_or-set_ne (x ∷ xs) (suc i) (suc j) v h = get_or-set_ne xs i j v (λ e. h (ap suc e))

pub current_navigation_location-address :
    (ui : UiState) → (current_navigation_location ui).address ≡ ui.disassembly_cursor
unfolding current_navigation_location
current_navigation_location-address ui = ground arith

-- What a traversal leaves of the history: its size and its entries, but for the one under the index,
-- which is at the cursor's address behind it
pub record Updated (before after : UiState) : Type 0 where
  pub same_size : after.history.size ≡ before.history.size
  pub others :
      (j : ℕ)
      → (entry_at after.history.entries j ≡ entry_at before.history.entries j)
        ⊎ (j ≡ before.history.index)
  pub current :
      (entry_at after.history.entries before.history.index).address ≡ before.disassembly_cursor

pub refresh_current-Updated :
    (ui : UiState) → ui.history.index < length ui.history.entries → Updated ui (refresh_current ui)
unfolding refresh_current
refresh_current-Updated ui inside = record {
  same_size = refl;
  others = λ j. elim (ℕ_discrete j ui.history.index) [
    | yes same ↦ inr same
    | no other ↦ inl (
        get_or-set_ne (at_address 0) ui.history.entries ui.history.index j
          (current_navigation_location ui) (λ e. other (sym e)))
  ];
  current =
      ap (λ x. x.address)
        (get_or-set (at_address 0) ui.history.entries ui.history.index
          (current_navigation_location ui) inside)
      ∙ current_navigation_location-address ui;
}

pub Updated-address :
    (before after : UiState)
    → Updated before after
    → (entry_at before.history.entries before.history.index).address ≡ before.disassembly_cursor
    → (j : ℕ)
    → (entry_at after.history.entries j).address ≡ (entry_at before.history.entries j).address
Updated-address before after u here j = elim (u.others j) [
  | inl same ↦ ap (λ x. x.address) same
  | inr same ↦ rw same (u.current ∙ sym here)
]

restore_keeps :
    (location : NavigationLocation) (ui : UiState)
    → ((restore location ui).disassembly_cursor ≡ ui.disassembly_cursor)
      × ((restore location ui).history ≡ ui.history)
restore_keeps location ui = ground arith

pub go_to-some :
    (ui : UiState) (i : ℕ)
    → ((go_to ui (some i)).disassembly_cursor ≡ (entry_at ui.history.entries i).address)
      × ((go_to ui (some i)).history ≡ record (ui.history) { index = i })
unfolding go_to
go_to-some ui i = restore_keeps (entry_at ui.history.entries i) _
