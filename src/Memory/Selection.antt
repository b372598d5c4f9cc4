-- ===== src/Memory/Selection.antt =====
-- src/app/MemoryController.cpp: the selection in the memory dump.
pub mod InBounds
use mydbg.Base.{
  ℕ, zero, suc, ◌+◌, ◌-◌, ◌*◌, ◌/◌, ◌%◌, ◌^◌, ◌≤◌, ◌<◌, ◌≡◌, refl, sym, ap, ◌∙◌, ◌≢◌, ◌↔◌, ◌⊎◌, inl,
  inr, Bool, true, false, not, ◌&&◌, ◌||◌, Option, none, some, List, [], ◌∷◌, ◌++◌, map, append-nil,
  append_assoc, arith, leb, ltb, ◌==◌, if◌then◌else◌, leb→le, ltb→lt, lt→ltb, le→not-ltb, ==_iff,
  ==_refl, Bool-cases, Option-cases, List-cases, and-eq-true, and_then, length, get_elem?, get_or,
  set, take, drop, replicate, take_while, drop_while, all, find?, tabulate, All, length-append,
  length-drop, length-set, length-drop_while-le, length-tabulate, Stops, take_while-append,
  drop_while-append, all-append, all-take_while, take_while-all, drop_while-all,
}
use mydbg.Base.Bytes.{
  Bytes, codes, is_space, is_digit, is_alpha, is_xdigit, is_word, hex_value, equal, equal_iff,
  starts_with, starts_with-append, drop-append,
}
use Prim.Native.Nat.{min, max}
use mydbg.Target.{SessionSnapshot}
use mydbg.Memory.Read.{debugger_memory_pointer}

-- `MemoryState`, the fields that the selection and the editor use
pub record MemoryState : Type 0 where
  pub selection_generation : ℕ
  pub selection_base : ℕ
  pub selection_size : ℕ
  pub selection_anchor : Option ℕ
  pub selection_end : Option ℕ
  pub selection_dragging : Bool
  pub edit_focus : Option ℕ

-- `dump_changed`
unfoldable pub dump_changed : SessionSnapshot → MemoryState → Bool
dump_changed snapshot state =
    not (state.selection_generation == snapshot.generation)
    || not (state.selection_base == snapshot.memory_base)
    || not (state.selection_size == length snapshot.memory)

-- The result of `debugger_sync_memory_selection` is `dump_changed`.
unfoldable pub debugger_sync_memory_selection : SessionSnapshot → MemoryState → MemoryState
unfolding dump_changed
debugger_sync_memory_selection snapshot state =
    if dump_changed snapshot state
    then record {
      selection_generation = snapshot.generation;
      selection_base = snapshot.memory_base;
      selection_size = length snapshot.memory;
      selection_anchor = none;
      selection_end = none;
      selection_dragging = false;
      edit_focus = none;
    }
    else state

-- Both ends of the selection. The functions on the ends dereference them, so they have a value here.
abbrev pub both : Option ℕ → Option ℕ → Option (ℕ × ℕ)
both (some anchor) (some end) = some (anchor, end)
both _ _ = none

abbrev pub selection_ends : MemoryState → Option (ℕ × ℕ)
selection_ends state = both state.selection_anchor state.selection_end

abbrev pub selection_start : ℕ × ℕ → ℕ
selection_start ends = min ends.0 ends.1

abbrev pub selection_last : ℕ × ℕ → ℕ
selection_last ends = max ends.0 ends.1

abbrev pub last_within : SessionSnapshot → Option (ℕ × ℕ) → Bool
last_within snapshot none = false
last_within snapshot (some ends) = ltb (selection_last ends) (length snapshot.memory)

unfoldable pub debugger_memory_has_selection : SessionSnapshot → MemoryState → Bool
debugger_memory_has_selection snapshot state = last_within snapshot (selection_ends state)

-- `subspan` from the start on
unfoldable pub debugger_memory_selected_bytes : SessionSnapshot → ℕ × ℕ → Bytes
debugger_memory_selected_bytes snapshot ends =
    take (selection_last ends - selection_start ends + 1)
      (drop (selection_start ends) snapshot.memory)

unfoldable pub debugger_select_memory_byte :
    SessionSnapshot → MemoryState → ℕ → Bool → Bool → MemoryState
unfolding debugger_memory_has_selection
debugger_select_memory_byte snapshot state offset extend editing = record state {
  selection_anchor =
      if not extend || not (debugger_memory_has_selection snapshot state)
      then some offset
      else state.selection_anchor;
  selection_end = some offset;
  selection_dragging = not editing;
}

abbrev pub outside : ℕ → Option (ℕ × ℕ) → Bool
outside offset none = true
outside offset (some ends) = ltb offset (selection_start ends) || ltb (selection_last ends) offset

unfoldable pub debugger_select_memory_context : SessionSnapshot → MemoryState → ℕ → MemoryState
unfolding debugger_memory_has_selection
debugger_select_memory_context snapshot state offset =
    if not (debugger_memory_has_selection snapshot state) || outside offset (selection_ends state)
    then record state {
      selection_anchor = some offset;
      selection_end = some offset;
      selection_dragging = false;
    }
    else record state { selection_dragging = false }

-- src/app/MemoryPanels.cpp: the drag over a byte, "select all", and the pointer at the start of the
-- selection, which the menu offers where the dump has it whole.
unfoldable pub drag_over : MemoryState → ℕ → MemoryState
drag_over state offset =
    if state.selection_dragging then record state { selection_end = some offset } else state

unfoldable pub select_all : SessionSnapshot → MemoryState → MemoryState
select_all snapshot state = if length snapshot.memory == 0 then state else record state {
  selection_anchor = some 0;
  selection_end = some (length snapshot.memory - 1);
}

unfoldable pub from_pointer : SessionSnapshot → MemoryState → Option (ℕ × ℕ) → MemoryState
from_pointer snapshot state none = state
from_pointer snapshot state (some ends) =
    if (debugger_memory_pointer snapshot (selection_start ends)).full_pointer
    then record state {
      selection_anchor = some (selection_start ends);
      selection_end = some (
          selection_start ends
          + (debugger_memory_pointer snapshot (selection_start ends)).width
          - 1);
    }
    else state

unfoldable pub select_pointer : SessionSnapshot → MemoryState → MemoryState
unfolding debugger_memory_has_selection from_pointer
select_pointer snapshot state =
    if debugger_memory_has_selection snapshot state
    then from_pointer snapshot state (selection_ends state)
    else state
