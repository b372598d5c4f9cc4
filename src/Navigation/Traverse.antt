-- ===== src/Navigation/Traverse.antt =====
-- src/app/AppActions.cpp: going back behind a jump.
use mydbg.Base.{
  ℕ, suc, ◌+◌, ◌≡◌, refl, sym, ap, ◌∙◌, ◌≢◌, ◌⊎◌, inl, inr, Bool, true, false, not, ◌&&◌, ◌||◌,
  some, List, [], ◌∷◌, ◌++◌, append_assoc, arith, ◌==◌, Bool-cases, length, get_or, take,
  length-append,
}
use mydbg.Target.{SessionSnapshot, is_stopped, address_is_code}
use mydbg.Navigation.State.{NavigationLocation, at_address, History, UiState}
use mydbg.Navigation.History.{
  extend_history, follow_disassembly, current_navigation_location, search_back, may_go_to, go_to,
  entry_at, refresh_current, traverse_from, app_traverse_navigation_history,
}
use mydbg.Navigation.Valid.{IsValid, extend_history-IsValid}
use mydbg.Navigation.Entries.{used, departed, bounded, length-take-of_le, used-extend_history}
use mydbg.Navigation.Refreshed.{
  get_or-take, get_or-append, get_or-append_second, get_or-set_ne,
  current_navigation_location-address, refresh_current-Updated, Updated-address, go_to-some,
}

bounded-concat :
    (l : List NavigationLocation) (here : NavigationLocation)
    → (l' : List NavigationLocation) × (bounded (l ++ here ∷ []) ≡ l' ++ here ∷ [])
bounded-concat [] here = ([], refl)
bounded-concat (x ∷ l) here = elim (Bool-cases (length (x ∷ (l ++ here ∷ [])) == 256)) [
  | inl e ↦ (l, rw e)
  | inr e ↦ (x ∷ l, rw e)
]

departed-concat :
    (here : NavigationLocation) (cursor : ℕ) (h : History)
    → cursor ≢ 0
    → (l : List NavigationLocation) × (departed here cursor h ≡ l ++ here ∷ [])
departed-concat here cursor h moved = elim (Bool-cases (h.size == 0)) [
  | inl e ↦ ([], ground arith)
  | inr e ↦ (take h.index h.entries, ground arith)
]

-- behind a jump, the entry before the current one is the location that was left, and the current one
-- is the address that was jumped to
extend_history-entry :
    (address : ℕ) (here : NavigationLocation) (cursor : ℕ) (h : History)
    → IsValid h
    → cursor ≢ 0
    → let h' = extend_history address here cursor h in
      (i : ℕ) × (h'.index ≡ suc i)
      × (entry_at h'.entries i ≡ here)
      × (entry_at h'.entries (suc i) ≡ at_address address)
extend_history-entry address here cursor h v moved =
    let h' = extend_history address here cursor h in
    let (used_is, last) = used-extend_history address here cursor h v in
    let (l, d_is) = departed-concat here cursor h moved in
    let (l', b_is) = bounded-concat l here in
    let whole : used h' ≡ l' ++ here ∷ at_address address ∷ [] =
      used_is
      ∙ ap (λ x. bounded x ++ at_address address ∷ []) d_is
      ∙ ap (λ x. x ++ at_address address ∷ []) b_is
      ∙ append_assoc l' (here ∷ []) (at_address address ∷ []) in
    let v' = extend_history-IsValid address here cursor h v in
    let size : h'.size ≡ length l' + 2 = omega (
      arith,
      ap length whole,
      v'.fits,
      v'.whole_array,
      length-append l' (here ∷ at_address address ∷ []),
      length-take-of_le h'.size h'.entries (omega arith),
    ) in
    (
      length l',
      omega arith,
      sym (get_or-take (at_address 0) h'.size h'.entries (length l') (omega arith))
          ∙ ap (λ x. get_or x (length l') (at_address 0)) whole
          ∙ get_or-append (at_address 0) l' here (at_address address ∷ []),
      sym (get_or-take (at_address 0) h'.size h'.entries (suc (length l')) (omega arith))
          ∙ ap (λ x. get_or x (suc (length l')) (at_address 0)) whole
          ∙ get_or-append_second (at_address 0) l' here (at_address address) [],
    )

-- the search from just behind an entry that may be shown
search_back-suc : (ok : ℕ → Bool) (i : ℕ) → ok i ≡ true → search_back ok (suc i) ≡ some i
unfolding search_back
search_back-suc ok i e = rw e

module _ (snapshot : SessionSnapshot) (address : ℕ) (ui : UiState) (valid : IsValid ui.history)
    (moved : ui.disassembly_cursor ≢ 0) (other : address ≢ ui.disassembly_cursor) where
  jumped-history :
      (follow_disassembly address ui).history
      ≡ extend_history address (current_navigation_location ui) ui.disassembly_cursor ui.history
  unfolding follow_disassembly
  jumped-history = let e : (address == ui.disassembly_cursor) ≡ false = ground arith in rw e

  jumped-cursor : (follow_disassembly address ui).disassembly_cursor ≡ address
  unfolding follow_disassembly
  jumped-cursor = refl

  -- A jump to another address, made at a cursor other than 0 in a valid history, is undone by going
  -- back, while the target is stopped and the address that was left lies in an executable region: the
  -- cursor is again where it was, the one before the jump's entry is the current one, the history has
  -- its size, the entry at each index has its address, and but for the jump's own, which may gain the
  -- location that was shown, each entry is what it was.
  pub traverse-follow_disassembly :
      is_stopped snapshot.state ≡ true
      → address_is_code snapshot.memory_regions ui.disassembly_cursor ≡ true
      → let there = follow_disassembly address ui in
        let back = app_traverse_navigation_history snapshot false there in
        (back.disassembly_cursor ≡ ui.disassembly_cursor)
        × (back.history.size ≡ there.history.size)
        × (back.history.index + 1 ≡ there.history.index)
        × ((j : ℕ)
            → (entry_at back.history.entries j).address
              ≡ (entry_at there.history.entries j).address)
        × ((j : ℕ)
            → (entry_at back.history.entries j ≡ entry_at there.history.entries j)
              ⊎ (j ≡ there.history.index))
  unfolding app_traverse_navigation_history traverse_from refresh_current
  traverse-follow_disassembly running code =
      let there = follow_disassembly address ui in
      let here = current_navigation_location ui in
      let (i, index_is, entry_is, last_is) =
        extend_history-entry address here ui.disassembly_cursor ui.history valid moved in
      let r = refresh_current there in
      let v = extend_history-IsValid address here ui.disassembly_cursor ui.history valid in
      let index_is' : r.history.index ≡ suc i = ap (λ h. h.index) jumped-history ∙ index_is in
      let entry_is' : (entry_at r.history.entries i).address ≡ ui.disassembly_cursor =
        ap (λ x. x.address)
          (get_or-set_ne (at_address 0) there.history.entries there.history.index i
            (current_navigation_location there) (omega arith))
        ∙ ap (λ h. (entry_at h.entries i).address) jumped-history
        ∙ ap (λ x. x.address) entry_is
        ∙ current_navigation_location-address ui in
      let there_index : there.history.index ≡ suc i = index_is' in
      let there_cursor : r.disassembly_cursor ≡ address = jumped-cursor in
      let ok_is : may_go_to snapshot r i ≡ true =
        ap (λ a. not (a == r.disassembly_cursor) && address_is_code snapshot.memory_regions a)
          entry_is'
        ∙ ground arith in
      let found : search_back (may_go_to snapshot r) there.history.index ≡ some i =
        ap (search_back (may_go_to snapshot r)) there_index
        ∙ search_back-suc (may_go_to snapshot r) i ok_is in
      let used_size : there.history.size ≢ 0 = omega (
        arith,
        ap (λ h. h.size) jumped-history,
        (used-extend_history address here ui.disassembly_cursor ui.history valid).1,
      ) in
      let open_is : (not (is_stopped snapshot.state) || there.history.size == 0) ≡ false =
        ground arith in
      let back_is : app_traverse_navigation_history snapshot false there ≡ go_to r (some i) =
        rw (open_is, found) refl in
      let (cursor_is, history_is) = go_to-some r i in
      let entries_are : (app_traverse_navigation_history snapshot false there).history.entries
          ≡ r.history.entries =
        ap (λ u. u.history.entries) back_is ∙ ap (λ h. h.entries) history_is in
      let updated = refresh_current-Updated there (
        omega (
          arith,
          ap (λ h. h.index) jumped-history,
          ap (λ h. length h.entries) jumped-history,
          v.whole_array,
          v.fits,
          v.index_inside,
          index_is,
          (used-extend_history address here ui.disassembly_cursor ui.history valid).1,
        )) in
      let last_address : (entry_at there.history.entries there.history.index).address ≡ address =
        ap (λ h. (entry_at h.entries h.index).address) jumped-history
        ∙ ap
            (λ n.
              (entry_at (extend_history address here ui.disassembly_cursor ui.history).entries
                n).address)
            index_is
        ∙ ap (λ x. x.address) last_is in
      (
        ap (λ u. u.disassembly_cursor) back_is ∙ cursor_is ∙ entry_is',
        ap (λ u. u.history.size) back_is ∙ ap (λ h. h.size) history_is,
        omega (arith, ap (λ u. u.history.index) back_is, ap (λ h. h.index) history_is),
        λ j.
            ap (λ es. (entry_at es j).address) entries_are
            ∙ Updated-address there r updated (last_address ∙ sym jumped-cursor) j,
        λ j. rw entries_are (updated.others j),
      )
