-- ===== src/Navigation/History.antt =====
-- src/app/AppActions.cpp: the history of code locations.
use mydbg.Base.{
  ℕ, zero, suc, ◌+◌, ◌-◌, Bool, false, not, ◌&&◌, ◌||◌, Option, none, some, List, [], ◌∷◌, ◌++◌,
  ◌==◌, if◌then◌else◌, length, get_or, set,
}
use mydbg.Target.{SessionSnapshot, is_stopped, address_is_code}
use mydbg.Navigation.State.{
  NavigationLocation, at_address, read_instructions, History, UiState, u64_max,
}

abbrev keyboard_location : UiState → NavigationLocation
keyboard_location ui =
    if ui.keyboard_cursor == ui.disassembly_cursor
    then record {
      address = ui.disassembly_cursor;
      decompiler_function = ui.keyboard_function;
      decompiler_line = ui.keyboard_line;
      decompiler_span = ui.keyboard_span;
    }
    else at_address ui.disassembly_cursor

abbrev pub restored_or : UiState → Option NavigationLocation → NavigationLocation
restored_or ui none = keyboard_location ui
restored_or ui (some location) =
    if location.address == ui.disassembly_cursor then location else keyboard_location ui

unfoldable pub current_navigation_location : UiState → NavigationLocation
current_navigation_location ui = restored_or ui ui.source_restore

unfoldable pub apply_disassembly_navigation : ℕ → UiState → UiState
apply_disassembly_navigation address ui = record ui {
  disassembly_cursor = address;
  disassembly_scroll_target = some address;
  source_restore = none;
  scroll_selection = u64_max;
  keyboard_line = none;
  keyboard_span = none;
  keyboard_cursor = address;
  calls = ui.calls ++ read_instructions address ∷ [];
}

unfoldable pub reset_navigation_history : UiState → UiState
reset_navigation_history ui = record ui {
  history = record (ui.history) { size = 0; index = 0 };
  source_restore = none;
  follow_requested = false;
  dispatch_frame = none;
  dialog_requested = false;
  dialog_open = false;
  address_error = none;
  keyboard_line = none;
  keyboard_span = none;
  keyboard_function = none;
  keyboard_cursor = 0;
}

-- the location that is left goes into the history, and what was ahead of it is dropped
unfoldable pub record_departure : NavigationLocation → ℕ → History → History
record_departure here cursor h =
    if not (h.size == 0)
    then record h { entries = set h.entries h.index here; size = h.index + 1 }
    else if not (cursor == 0)
    then record h { entries = set h.entries h.size here; size = h.size + 1 }
    else h

-- `std::move(begin + 1, end, begin)`: the last element stays as it is
abbrev pub shift {ℓ} : {A : Type ℓ} → List A → List A
shift [] = []
shift (x ∷ []) = x ∷ []
shift (x ∷ y ∷ xs) = y ∷ shift (y ∷ xs)

unfoldable pub drop_oldest : History → History
drop_oldest h =
    if h.size == length h.entries
    then record h { entries = shift h.entries; size = h.size - 1 }
    else h

unfoldable pub push_location : ℕ → History → History
push_location address h = record h {
  entries = set h.entries h.size (at_address address);
  size = h.size + 1;
  index = h.size;
}

unfoldable pub extend_history : ℕ → NavigationLocation → ℕ → History → History
unfolding record_departure drop_oldest push_location
extend_history address here cursor h =
    push_location address (drop_oldest (record_departure here cursor h))

unfoldable pub follow_disassembly : ℕ → UiState → UiState
unfolding extend_history current_navigation_location apply_disassembly_navigation
follow_disassembly address ui = apply_disassembly_navigation address (
    if address == ui.disassembly_cursor then ui else record ui {
      history =
          extend_history address (current_navigation_location ui) ui.disassembly_cursor ui.history;
    })

-- The loop of `app_traverse_navigation_history`, towards older and towards newer entries.
unfoldable pub search_back : (ℕ → Bool) → ℕ → Option ℕ
search_back ok zero = none
search_back ok (suc candidate) = if ok candidate then some candidate else search_back ok candidate

-- `rounds` is the number of entries ahead of the candidate.
unfoldable pub search_forward : (ℕ → Bool) → ℕ → ℕ → Option ℕ
search_forward ok candidate zero = none
search_forward ok candidate (suc rounds) =
    if ok (candidate + 1) then some (candidate + 1) else search_forward ok (candidate + 1) rounds

abbrev pub entry_at : List NavigationLocation → ℕ → NavigationLocation
entry_at history i = get_or history i (at_address 0)

-- not `continue` in the source's loop
abbrev pub may_go_to : SessionSnapshot → UiState → ℕ → Bool
may_go_to snapshot ui i =
    let address = (entry_at ui.history.entries i).address in
    not (address == ui.disassembly_cursor) && address_is_code snapshot.memory_regions address

abbrev pub restore : NavigationLocation → UiState → UiState
restore location ui = elim location.decompiler_function [
  | none ↦ ui
  | some _ ↦ elim location.decompiler_line [
    | none ↦ ui
    | some _ ↦ record ui { source_restore = some location }
  ]
]

unfoldable pub go_to : UiState → Option ℕ → UiState
unfolding apply_disassembly_navigation
go_to ui none = ui
go_to ui (some candidate) =
    let location = entry_at ui.history.entries candidate in
    restore location (
      apply_disassembly_navigation location.address
        (record ui { history = record (ui.history) { index = candidate } }))

-- the entry under the index is brought up to date before the search
unfoldable pub refresh_current : UiState → UiState
unfolding current_navigation_location
refresh_current ui =
    let h = ui.history in
    record ui {
      history = record h { entries = set h.entries h.index (current_navigation_location ui) };
    }

unfoldable pub traverse_from : SessionSnapshot → Bool → UiState → UiState
unfolding search_back search_forward go_to address_is_code
traverse_from snapshot forward ui = go_to ui (
    if forward
    then search_forward (may_go_to snapshot ui) ui.history.index
        (ui.history.size - (ui.history.index + 1))
    else search_back (may_go_to snapshot ui) ui.history.index)

unfoldable pub app_traverse_navigation_history : SessionSnapshot → Bool → UiState → UiState
unfolding is_stopped refresh_current traverse_from
app_traverse_navigation_history snapshot forward ui =
    if not (is_stopped snapshot.state) || ui.history.size == 0
    then ui
    else traverse_from snapshot forward (refresh_current ui)
