-- ===== src/Navigation/Valid.antt =====
-- src/app/AppActions.cpp: the history stays within its array, whatever the user does.
use mydbg.Base.{
  ℕ, suc, ◌≤◌, ◌<◌, ◌≡◌, refl, ap, ◌∙◌, inl, inr, Bool, true, false, not, ◌||◌, Option, none, some,
  List, [], ◌∷◌, arith, ◌==◌, Bool-cases, length, length-set,
}
use mydbg.Target.{
  SessionSnapshot, is_stopped, navigable_address, region_containing, MemoryRegionInfo,
}
use mydbg.Navigation.State.{NavigationLocation, at_address, History, UiState, capacity}
use mydbg.Navigation.History.{
  record_departure, shift, drop_oldest, extend_history, follow_disassembly,
  current_navigation_location, entry_at, restore, may_go_to, go_to, refresh_current, traverse_from,
  app_traverse_navigation_history, reset_navigation_history,
}
use mydbg.Navigation.Nearest.{search_back-Nearest, search_forward-Nearest}
use mydbg.Navigation.Actions.{
  AppNavigationTarget, follow_region, app_follow_address, app_submit_navigation_address, submitted,
  submit_parsed, app_toggle_navigation_graph,
}

-- The array keeps its 256 elements, the used part fits, and the index points into it.
pub record IsValid (h : History) : Type 0 where
  pub whole_array : length h.entries ≡ capacity
  pub fits : h.size ≤ capacity
  pub empty_index : h.size ≡ 0 → h.index ≡ 0
  pub index_inside : 0 < h.size → h.index < h.size

pub length-shift {ℓ} : {A : Type ℓ} (xs : List A) → length (shift xs) ≡ length xs
length-shift [] = refl
length-shift (x ∷ []) = refl
length-shift (x ∷ y ∷ xs) = ap suc (length-shift (y ∷ xs))

-- Between the steps of `follow_disassembly`: room in the array for the used part.
abbrev pub Fits : History → Type 0
Fits h = (length h.entries ≡ capacity) × (h.size ≤ capacity)

pub record_departure-Fits :
    (here : NavigationLocation) (cursor : ℕ) (h : History)
    → IsValid h
    → Fits (record_departure here cursor h)
unfolding record_departure
record_departure-Fits here cursor h v =
    ground (arith, length-set h.entries h.index here, length-set h.entries h.size here)

pub drop_oldest-Fits :
    (h : History) → Fits h → Fits (drop_oldest h) × ((drop_oldest h).size < capacity)
unfolding drop_oldest
drop_oldest-Fits h v = ground (arith, length-shift h.entries)

pub extend_history-IsValid :
    (address : ℕ) (here : NavigationLocation) (cursor : ℕ) (h : History)
    → IsValid h
    → IsValid (extend_history address here cursor h)
unfolding extend_history
extend_history-IsValid address here cursor h v =
    let h' = drop_oldest (record_departure here cursor h) in
    let (fits, room) =
      drop_oldest-Fits (record_departure here cursor h) (record_departure-Fits here cursor h v) in
    record {
      whole_array = length-set h'.entries h'.size (at_address address) ∙ fits.0;
      fits = omega arith;
      empty_index = λ e. absurd (omega arith);
      index_inside = λ e. omega arith;
    }

pub follow_disassembly-IsValid :
    (address : ℕ) (ui : UiState)
    → IsValid ui.history
    → IsValid (follow_disassembly address ui).history
unfolding follow_disassembly
follow_disassembly-IsValid address ui v = elim (Bool-cases (address == ui.disassembly_cursor)) [
  | inl e ↦ rw e v
  | inr e ↦ rw e (extend_history-IsValid address _ ui.disassembly_cursor ui.history v)
]

go_to-IsValid :
    (ui : UiState) (o : Option ℕ)
    → IsValid ui.history
    → ((i : ℕ) → o ≡ some i → i < ui.history.size)
    → IsValid (go_to ui o).history
unfolding go_to
go_to-IsValid ui none v h = v
go_to-IsValid ui (some i) v h =
    let inside = h i refl in
    let location = entry_at ui.history.entries i in
    restore-IsValid location _ (record {
      whole_array = v.whole_array;
      fits = v.fits;
      empty_index = λ e. absurd (omega arith);
      index_inside = λ e. inside;
    })
  where
    restore-IsValid :
        (location : NavigationLocation) (ui' : UiState)
        → IsValid ui'.history
        → IsValid (restore location ui').history
    restore-IsValid location ui' v' = ground arith

traverse_from-IsValid :
    (snapshot : SessionSnapshot) (forward : Bool) (ui : UiState)
    → IsValid ui.history
    → 0 < ui.history.size
    → IsValid (traverse_from snapshot forward ui).history
unfolding traverse_from
traverse_from-IsValid snapshot true ui v p = go_to-IsValid ui _ v (λ i e.
    let near = search_forward-Nearest (may_go_to snapshot ui) ui.history.index _ e in
    omega (arith, near.inside, v.index_inside p))
traverse_from-IsValid snapshot false ui v p = go_to-IsValid ui _ v (λ i e.
    let near = search_back-Nearest (may_go_to snapshot ui) ui.history.index e in
    omega (arith, near.inside, v.index_inside p))

refresh_current-IsValid : (ui : UiState) → IsValid ui.history → IsValid (refresh_current ui).history
unfolding refresh_current
refresh_current-IsValid ui v =
    ground (arith, length-set ui.history.entries ui.history.index (current_navigation_location ui))

pub app_traverse_navigation_history-IsValid :
    (snapshot : SessionSnapshot) (forward : Bool) (ui : UiState)
    → IsValid ui.history
    → IsValid (app_traverse_navigation_history snapshot forward ui).history
unfolding app_traverse_navigation_history
app_traverse_navigation_history-IsValid snapshot forward ui v =
    elim (Bool-cases (not (is_stopped snapshot.state) || ui.history.size == 0)) [
      | inl e ↦ rw e v
      | inr e ↦ rw e (
          traverse_from-IsValid snapshot forward (refresh_current ui) (refresh_current-IsValid ui v)
            (ground arith))
    ]

follow_region-IsValid :
    (address : ℕ) (ui : UiState) (region : Option MemoryRegionInfo)
    → IsValid ui.history
    → IsValid (follow_region address ui region).1.history
unfolding follow_region
follow_region-IsValid address ui none v = v
follow_region-IsValid address ui (some region) v = elim (Bool-cases region.executable) [
  | inl e ↦ rw e (follow_disassembly-IsValid address ui v)
  | inr e ↦ rw e v
]

app_follow_address-IsValid :
    (snapshot : SessionSnapshot) (address : ℕ) (ui : UiState)
    → IsValid ui.history
    → IsValid (app_follow_address snapshot address ui).1.history
unfolding app_follow_address
app_follow_address-IsValid snapshot address ui v =
    let regions = snapshot.memory_regions in
    elim (Bool-cases (not (navigable_address regions address))) [
      | inl e ↦ rw e v
      | inr e ↦ rw e (follow_region-IsValid address ui (region_containing regions address) v)
    ]

submitted-IsValid :
    (r : AppNavigationTarget × UiState) → IsValid r.1.history → IsValid (submitted r).1.history
submitted-IsValid (AppNavigationTarget.nowhere, ui) v = v
submitted-IsValid (AppNavigationTarget.disassembly, ui) v = v
submitted-IsValid (AppNavigationTarget.memory, ui) v = v

submit_parsed-IsValid :
    (snapshot : SessionSnapshot) (ui : UiState) (o : Option ℕ)
    → IsValid ui.history
    → IsValid (submit_parsed snapshot ui o).2.history
submit_parsed-IsValid snapshot ui none v = v
submit_parsed-IsValid snapshot ui (some address) v =
    submitted-IsValid (app_follow_address snapshot address ui)
      (app_follow_address-IsValid snapshot address ui v)

app_submit_navigation_address-IsValid :
    (snapshot : SessionSnapshot) (ui : UiState)
    → IsValid ui.history
    → IsValid (app_submit_navigation_address snapshot ui).2.history
unfolding app_submit_navigation_address
app_submit_navigation_address-IsValid snapshot ui v = submit_parsed-IsValid snapshot ui _ v

reset-IsValid : (ui : UiState) → IsValid ui.history → IsValid (reset_navigation_history ui).history
unfolding reset_navigation_history
reset-IsValid ui v = ground arith

toggle-IsValid :
    (ui : UiState) → IsValid ui.history → IsValid (app_toggle_navigation_graph ui).history
unfolding app_toggle_navigation_graph
toggle-IsValid ui v = v

-- One action of the user on the navigation, or of the program when a session ends.
pub data Act (ui : UiState) : UiState → Type 0 where
  follow : (address : ℕ) → Act ui (follow_disassembly address ui)
  traverse :
      (snapshot : SessionSnapshot) (forward : Bool)
      → Act ui (app_traverse_navigation_history snapshot forward ui)
  go :
      (snapshot : SessionSnapshot) (address : ℕ) → Act ui (app_follow_address snapshot address ui).1
  submit : (snapshot : SessionSnapshot) → Act ui (app_submit_navigation_address snapshot ui).2
  toggle : Act ui (app_toggle_navigation_graph ui)
  reset : Act ui (reset_navigation_history ui)

pub data Reach (ui : UiState) : UiState → Type 0 where
  here : Reach ui ui
  next : {t u : UiState} → Reach ui t → Act t u → Reach ui u

Act-IsValid : {ui ui' : UiState} → Act ui ui' → IsValid ui.history → IsValid ui'.history
Act-IsValid {ui} (follow address) v = follow_disassembly-IsValid address ui v
Act-IsValid {ui} (traverse snapshot forward) v =
    app_traverse_navigation_history-IsValid snapshot forward ui v
Act-IsValid {ui} (go snapshot address) v = app_follow_address-IsValid snapshot address ui v
Act-IsValid {ui} (submit snapshot) v = app_submit_navigation_address-IsValid snapshot ui v
Act-IsValid {ui} toggle v = toggle-IsValid ui v
Act-IsValid {ui} reset v = reset-IsValid ui v

-- Whatever sequence of actions the user takes from a valid history, the history is valid behind it:
-- its array has 256 elements, no more of them are used, and the index is that of a used one, or 0
-- where none is.
pub Reach-IsValid : {ui ui' : UiState} → IsValid ui.history → Reach ui ui' → IsValid ui'.history
Reach-IsValid v here = v
Reach-IsValid v (next r a) = Act-IsValid a (Reach-IsValid v r)
