-- ===== src/Navigation/Traversal.antt =====
-- src/app/AppActions.cpp: which entry of the history a traversal goes to.
use mydbg.Base.{
  ℕ, ◌+◌, ◌-◌, ◌<◌, ◌≤◌, ◌↔◌, ◌≡◌, refl, sym, ap, ◌∙◌, ◌≢◌, ◌⊎◌, inl, inr, Bool, true, false, not,
  ◌&&◌, ◌||◌, Option, none, some, List, [], ◌∷◌, arith, ◌==◌, Bool-cases,
}
use mathlib.Core.Path.{subst}
use mydbg.Target.{MemoryRegionInfo, SessionSnapshot, is_stopped, address_is_code}
use mydbg.Navigation.State.{at_address, UiState}
use mydbg.Navigation.History.{
  current_navigation_location, search_back, search_forward, may_go_to, go_to, entry_at,
  refresh_current, traverse_from, app_traverse_navigation_history,
}
use mydbg.Navigation.Nearest.{
  search_back-Nearest, search_forward-Nearest, search_back-none, search_forward-none,
}
use mydbg.Navigation.Valid.{IsValid}
use mydbg.Navigation.Refreshed.{get_or-set_ne, Updated, refresh_current-Updated, go_to-some}

-- The address lies in an executable region.
abbrev pub IsCode : List MemoryRegionInfo → ℕ → Type 0
IsCode [] address = ⊥
IsCode (r ∷ regions) address =
    ((r.executable ≡ true) × (r.start ≤ address) × (address < r.end)) ⊎ IsCode regions address

-- The entry at an index can be gone to: it is in executable memory and elsewhere than the cursor.
abbrev pub Shown : SessionSnapshot → UiState → ℕ → Type 0
Shown snapshot ui j =
    ((entry_at ui.history.entries j).address ≢ ui.disassembly_cursor)
    × IsCode snapshot.memory_regions (entry_at ui.history.entries j).address

-- What a traversal may do, towards older entries (`false`) and towards newer ones (`true`)
pub data Traversal (snapshot : SessionSnapshot) (ui result : UiState) : Bool → Type 0 where
  stays :
      {forward : Bool}
      → (is_stopped snapshot.state ≡ false) ⊎ (ui.history.size ≡ 0)
      → result ≡ ui
      → Traversal snapshot ui result forward
  no_older :
      ((j : ℕ) → j < ui.history.index → ¬ Shown snapshot ui j)
      → Updated ui result
      → result.disassembly_cursor ≡ ui.disassembly_cursor
      → result.history.index ≡ ui.history.index
      → Traversal snapshot ui result false
  older :
      (i : ℕ)
      → i < ui.history.index
      → Shown snapshot ui i
      → ((j : ℕ) → i < j → j < ui.history.index → ¬ Shown snapshot ui j)
      → Updated ui result
      → result.disassembly_cursor ≡ (entry_at ui.history.entries i).address
      → result.history.index ≡ i
      → Traversal snapshot ui result false
  no_newer :
      ((j : ℕ) → ui.history.index < j → j < ui.history.size → ¬ Shown snapshot ui j)
      → Updated ui result
      → result.disassembly_cursor ≡ ui.disassembly_cursor
      → result.history.index ≡ ui.history.index
      → Traversal snapshot ui result true
  newer :
      (i : ℕ)
      → ui.history.index < i
      → i < ui.history.size
      → Shown snapshot ui i
      → ((j : ℕ) → ui.history.index < j → j < i → ¬ Shown snapshot ui j)
      → Updated ui result
      → result.disassembly_cursor ≡ (entry_at ui.history.entries i).address
      → result.history.index ≡ i
      → Traversal snapshot ui result true

address_is_code-IsCode :
    (regions : List MemoryRegionInfo) (address : ℕ)
    → (address_is_code regions address ≡ true) ↔ IsCode regions address
unfolding address_is_code
address_is_code-IsCode [] address = ((λ e. cc), (λ h. absurd h))
address_is_code-IsCode (r ∷ regions) address =
    ground (arith, address_is_code-IsCode regions address)

test-Shown :
    (regions : List MemoryRegionInfo) (cursor address : ℕ)
    → ((not (address == cursor) && address_is_code regions address) ≡ true)
      ↔ ((address ≢ cursor) × IsCode regions address)
test-Shown regions cursor address = ground (arith, address_is_code-IsCode regions address)

module _ (snapshot : SessionSnapshot) (ui : UiState) (valid : IsValid ui.history)
    (some_used : ui.history.size ≢ 0) where
  -- For every entry but the current one, the test of the source's loop is `Shown`.
  may_go_to-Shown :
      (j : ℕ)
      → j ≢ ui.history.index
      → (may_go_to snapshot (refresh_current ui) j ≡ true) ↔ Shown snapshot ui j
  unfolding refresh_current
  may_go_to-Shown j other =
      let same =
        get_or-set_ne (at_address 0) ui.history.entries ui.history.index j
          (current_navigation_location ui) (λ e. other (sym e)) in
      subst
        (λ x.
          ((not (x == ui.disassembly_cursor) && address_is_code snapshot.memory_regions x) ≡ true)
          ↔ Shown snapshot ui j)
        (ap (λ x. x.address) (sym same))
        (test-Shown snapshot.memory_regions ui.disassembly_cursor
          (entry_at ui.history.entries j).address)

  not-Shown :
      (j : ℕ)
      → j ≢ ui.history.index
      → may_go_to snapshot (refresh_current ui) j ≡ false
      → ¬ Shown snapshot ui j
  not-Shown j other e h = let yes_is = (may_go_to-Shown j other).1 h in cc

  refreshed : Updated ui (refresh_current ui)
  refreshed =
      refresh_current-Updated ui
        (omega (arith, valid.whole_array, valid.fits, valid.index_inside, some_used))

  refreshed-cursor : (refresh_current ui).disassembly_cursor ≡ ui.disassembly_cursor
  unfolding refresh_current
  refreshed-cursor = refl

  refreshed-index : (refresh_current ui).history.index ≡ ui.history.index
  unfolding refresh_current
  refreshed-index = refl

  gone-Updated : (i : ℕ) → Updated ui (go_to (refresh_current ui) (some i))
  gone-Updated i =
      let history_is = (go_to-some (refresh_current ui) i).1 in
      record {
        same_size = ap (λ h. h.size) history_is ∙ refreshed.same_size;
        others = λ j. rw (ap (λ h. h.entries) history_is) (refreshed.others j);
        current = rw (ap (λ h. h.entries) history_is) refreshed.current;
      }

  gone-cursor :
      (i : ℕ)
      → i ≢ ui.history.index
      → (go_to (refresh_current ui) (some i)).disassembly_cursor
        ≡ (entry_at ui.history.entries i).address
  gone-cursor i other = elim (refreshed.others i) [
    | inl same ↦ (go_to-some (refresh_current ui) i).0 ∙ ap (λ x. x.address) same
    | inr same ↦ absurd (other same)
  ]

  back-Traversal :
      (o : Option ℕ)
      → search_back (may_go_to snapshot (refresh_current ui)) ui.history.index ≡ o
      → Traversal snapshot ui (go_to (refresh_current ui) o) false
  unfolding go_to
  back-Traversal none e =
      no_older
        (λ j l.
          not-Shown j (omega (arith, l))
            (search_back-none (may_go_to snapshot (refresh_current ui)) ui.history.index e j l))
        refreshed refreshed-cursor refreshed-index
  back-Traversal (some i) e =
      let near = search_back-Nearest (may_go_to snapshot (refresh_current ui)) ui.history.index e in
      older i near.inside ((may_go_to-Shown i (omega (arith, near.inside))).0 near.passes)
        (λ j a b. not-Shown j (omega (arith, b)) (near.skipped j a b)) (gone-Updated i)
        (gone-cursor i (omega (arith, near.inside)))
        (ap (λ h. h.index) (go_to-some (refresh_current ui) i).1)

  forward-Traversal :
      (o : Option ℕ)
      → ui.history.index < ui.history.size
      → search_forward
          (may_go_to snapshot (refresh_current ui))
          ui.history.index
          (ui.history.size - (ui.history.index + 1))
        ≡ o
      → Traversal snapshot ui (go_to (refresh_current ui) o) true
  unfolding go_to
  forward-Traversal none h e =
      no_newer
        (λ j a b. not-Shown j (omega (arith, a)) (
          search_forward-none (may_go_to snapshot (refresh_current ui)) ui.history.index
            (ui.history.size - (ui.history.index + 1)) e j a (omega (arith, h, b))))
        refreshed refreshed-cursor refreshed-index
  forward-Traversal (some i) h e =
      let near =
        search_forward-Nearest (may_go_to snapshot (refresh_current ui)) ui.history.index
          (ui.history.size - (ui.history.index + 1)) e in
      newer i near.beyond (omega (arith, near.inside, h))
        ((may_go_to-Shown i (omega (arith, near.beyond))).0 near.passes)
        (λ j a b. not-Shown j (omega (arith, a)) (near.skipped j a b)) (gone-Updated i)
        (gone-cursor i (omega (arith, near.beyond)))
        (ap (λ h. h.index) (go_to-some (refresh_current ui) i).1)

-- A traversal of a valid history changes nothing while the target is not stopped or the history is
-- empty. Otherwise it looks in its direction for the nearest entry whose address lies in an executable
-- region and is not the cursor's, skipping the entries between: the cursor takes that entry's address
-- and the index its place. Where there is none, cursor and index stay. The entry under the old index
-- is then at the old cursor's address, and the history keeps its size and its other entries.
pub app_traverse_navigation_history-Traversal :
    (snapshot : SessionSnapshot) (ui : UiState) (forward : Bool)
    → IsValid ui.history
    → Traversal snapshot ui (app_traverse_navigation_history snapshot forward ui) forward
unfolding app_traverse_navigation_history traverse_from refresh_current
app_traverse_navigation_history-Traversal snapshot ui forward v =
    elim (Bool-cases (not (is_stopped snapshot.state) || ui.history.size == 0)) [
      | inl e ↦ rw e (stays (ground arith) refl)
      | inr e ↦ rw e (direction forward (ground arith) (ground arith))
    ]
  where
    direction :
        (f : Bool)
        → ui.history.size ≢ 0
        → ui.history.index < ui.history.size
        → Traversal snapshot ui (traverse_from snapshot f (refresh_current ui)) f
    direction true n h = forward-Traversal snapshot ui v n _ h refl
    direction false n h = back-Traversal snapshot ui v n _ refl
