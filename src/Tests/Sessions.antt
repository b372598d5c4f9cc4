-- ===== src/Tests/Sessions.antt =====
-- The snapshot and the states of the panels at concrete inputs.
use mathlib.Core.Path.{◌≡◌, refl}
use mathlib.Core.Bool.{true, false}
use mathlib.Core.Option.{none, some}
use mathlib.Core.List.{[], ◌∷◌, ◌++◌}
use native.Mathlib.Omega.{arith}
use mydbg.Base.{ℕ, ◌⊎◌, ◌+◌, ◌-◌, replicate, length, if◌then◌else◌}
use mydbg.Base.Bytes.{Bytes, codes, equal}
use mydbg.Base.Endian.{little_value, big_value}
use mydbg.Target.{SessionSnapshot, MemoryRegionInfo, stopped, is_stopped, address_is_code}
use mydbg.Navigation.State.{at_address, History, UiState}
use mydbg.Navigation.History.{
  extend_history, follow_disassembly, entry_at, app_traverse_navigation_history,
}
use mydbg.Navigation.Valid.{IsValid, here, next, follow, Reach-IsValid}
use mydbg.Navigation.Entries.{used, bounded, departed, used-extend_history}
use mydbg.Navigation.Traverse.{traverse-follow_disassembly}
use mydbg.Navigation.Traversal.{Traversal, app_traverse_navigation_history-Traversal}
use mydbg.Memory.Read.{slice, read_memory_unsigned}
use mydbg.Memory.Read.Value.{InDump, read_memory_unsigned-value}
use mydbg.Memory.Selection.{
  MemoryState, debugger_sync_memory_selection, debugger_select_memory_byte, selection_ends,
  selection_start, selection_last, debugger_memory_has_selection, debugger_memory_selected_bytes,
}
use mydbg.Memory.Selection.InBounds
use mydbg.Actions.{Context, Call, toggle_breakpoint, debug_action_enabled, execute_debug_action}
use mydbg.Actions.Permitted.{Fits, execute_debug_action-Fits}

abbrev four_bytes : Bytes
four_bytes = 1 ∷ 2 ∷ 255 ∷ 16 ∷ []

abbrev code_region : MemoryRegionInfo
code_region = record {
  start = 4096;
  end = 8192;
  readable = true;
  writable = false;
  executable = true;
}

abbrev session : SessionSnapshot
session = record {
  state = stopped;
  generation = 1;
  memory_base = 4096;
  memory = four_bytes;
  byte_order = codes "little";
  address_byte_size = 4;
  memory_regions = code_region ∷ [];
  modules = [];
}

abbrev no_history : History
no_history = record { entries = replicate 256 (at_address 0); size = 0; index = 0 }

abbrev user_interface : UiState
user_interface = record {
  disassembly_cursor = 4100;
  disassembly_scroll_target = none;
  disassembly_graph_view = false;
  has_graph_state = false;
  history = no_history;
  source_restore = none;
  follow_requested = false;
  dispatch_frame = none;
  control_locked = false;
  dialog_requested = false;
  dialog_decompiler_view = false;
  dialog_open = false;
  dialog_generation = 0;
  address_text = [];
  address_error = none;
  keyboard_line = none;
  keyboard_span = none;
  keyboard_function = none;
  keyboard_cursor = 0;
  scroll_selection = 0;
  memory_address = none;
  calls = [];
}

no_history-IsValid : IsValid no_history
no_history-IsValid = record {
  whole_array = refl;
  fits = omega arith;
  empty_index = λ e. refl;
  index_inside = λ l. absurd (omega (arith, l));
}

Reach-IsValid_example : IsValid (follow_disassembly 4104 user_interface).history
Reach-IsValid_example = Reach-IsValid no_history-IsValid (next here (follow 4104))

used-extend_history_example :
    let h' = extend_history 4104 (at_address 4100) 4100 no_history in
    (used h' ≡ bounded (departed (at_address 4100) 4100 no_history) ++ at_address 4104 ∷ [])
    × (h'.index + 1 ≡ h'.size)
used-extend_history_example =
    used-extend_history 4104 (at_address 4100) 4100 no_history no_history-IsValid

traverse-follow_disassembly_example :
    let there = follow_disassembly 4104 user_interface in
    let back = app_traverse_navigation_history session false there in
    (back.disassembly_cursor ≡ 4100)
    × (back.history.size ≡ there.history.size)
    × (back.history.index + 1 ≡ there.history.index)
    × ((j : ℕ)
        → (entry_at back.history.entries j).address ≡ (entry_at there.history.entries j).address)
    × ((j : ℕ)
        → (entry_at back.history.entries j ≡ entry_at there.history.entries j)
          ⊎ (j ≡ there.history.index))
unfolding is_stopped address_is_code
traverse-follow_disassembly_example =
    traverse-follow_disassembly session 4104 user_interface no_history-IsValid
      (λ e. absurd (grind (arith, e))) (λ e. absurd (grind (arith, e))) refl refl

abbrev after_jump : UiState
after_jump = follow_disassembly 4104 user_interface

app_traverse_navigation_history-Traversal_example :
    Traversal session after_jump (app_traverse_navigation_history session false after_jump) false
app_traverse_navigation_history-Traversal_example =
    app_traverse_navigation_history-Traversal session after_jump false
      (Reach-IsValid no_history-IsValid (next here (follow 4104)))

read_memory_unsigned-value_example :
    (InDump session 4097 2
      → read_memory_unsigned session 4097 2
        ≡ some (
            if equal (codes "little") (codes "big")
            then big_value (slice session (4097 - 4096) 2)
            else little_value (slice session (4097 - 4096) 2)))
    × (¬ InDump session 4097 2 → read_memory_unsigned session 4097 2 ≡ none)
read_memory_unsigned-value_example =
    read_memory_unsigned-value session 4097 2
      (omega arith, (omega arith, (omega arith, (omega arith, tt))))

abbrev no_selection : MemoryState
no_selection = record {
  selection_generation = 0;
  selection_base = 0;
  selection_size = 0;
  selection_anchor = none;
  selection_end = none;
  selection_dragging = false;
  edit_focus = none;
}

abbrev one_selected : MemoryState
one_selected =
    debugger_select_memory_byte session (debugger_sync_memory_selection session no_selection) 2
      false false

Reach-selected_example :
    ((ends : ℕ × ℕ)
      → selection_ends one_selected ≡ some ends
      → (debugger_memory_has_selection session one_selected ≡ true)
        × (length (debugger_memory_selected_bytes session ends)
            ≡ selection_last ends - selection_start ends + 1))
    × (selection_ends one_selected ≡ none
        → (one_selected.selection_anchor ≡ none) × (one_selected.selection_end ≡ none))
Reach-selected_example = InBounds.Reach-selected session one_selected (
    InBounds.select_byte session (debugger_sync_memory_selection session no_selection) 2 false false
      (InBounds.first session no_selection refl refl refl) (omega arith))

abbrev context : Context
context = record {
  state = stopped;
  target_path = codes "/bin/true";
  breakpoints = [];
  executable_path = codes "/bin/true";
  disassembly_cursor = 4100;
}

execute_debug_action-Fits_example :
    (call : Call) × (execute_debug_action toggle_breakpoint context ≡ call ∷ []) × Fits context call
unfolding debug_action_enabled
execute_debug_action-Fits_example = execute_debug_action-Fits toggle_breakpoint context refl
