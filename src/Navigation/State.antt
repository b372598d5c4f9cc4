-- ===== src/Navigation/State.antt =====
-- src/app/NavigationState.h, and the members of src/app/DecompilerState.h that navigation uses. The
-- calls of the engine are recorded in order; a text that the engine gets is kept as its value.
use mydbg.Base.{ℕ, ◌-◌, ◌^◌, Bool, Option, none, List}
use mydbg.Base.Bytes.{Bytes}

pub record NavigationLocation : Type 0 where
  pub address : ℕ
  pub decompiler_function : Option ℕ
  pub decompiler_line : Option ℕ
  pub decompiler_span : Option ℕ

abbrev pub at_address : ℕ → NavigationLocation
at_address address = record {
  address = address;
  decompiler_function = none;
  decompiler_line = none;
  decompiler_span = none;
}

pub data EngineCall : Type 0 where
  read_instructions : ℕ → EngineCall
  read_memory : ℕ → EngineCall

pub data AddressError : Type 0 where
  invalid_address unmapped_address : AddressError

-- `history` (a `std::array<NavigationLocation, 256>`), `history_size` and `history_index`
pub record History : Type 0 where
  pub entries : List NavigationLocation
  pub size : ℕ
  pub index : ℕ

-- `UiState`, with `ui.navigation`, `ui.decompiler` and `ui.memory.address` flattened.
pub record UiState : Type 0 where
  pub disassembly_cursor : ℕ
  pub disassembly_scroll_target : Option ℕ
  pub disassembly_graph_view : Bool
  -- whether there is a `DisassemblyGraphView`
  pub has_graph_state : Bool
  pub history : History
  pub source_restore : Option NavigationLocation
  pub follow_requested : Bool
  -- `none` for -1
  pub dispatch_frame : Option ℕ
  pub control_locked : Bool
  pub dialog_requested : Bool
  pub dialog_decompiler_view : Bool
  pub dialog_open : Bool
  pub dialog_generation : ℕ
  -- the value behind "0x" in the text buffer, where the program wrote it
  pub address_text : Bytes
  pub address_error : Option AddressError
  pub keyboard_line : Option ℕ
  pub keyboard_span : Option ℕ
  pub keyboard_function : Option ℕ
  pub keyboard_cursor : ℕ
  pub scroll_selection : ℕ
  pub memory_address : Option ℕ
  pub calls : List EngineCall

abbrev pub capacity : ℕ
capacity = 256

abbrev pub u64_max : ℕ
u64_max = 2 ^ 64 - 1
