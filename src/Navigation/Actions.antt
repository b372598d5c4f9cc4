-- ===== src/Navigation/Actions.antt =====
-- src/app/AppActions.cpp: going to an address, and the address dialog.
use mydbg.Base.{
  ℕ, ◌+◌, ◌-◌, Bool, true, false, not, ◌&&◌, ◌||◌, Option, none, some, [], ◌∷◌, ◌++◌, ltb,
  if◌then◌else◌, drop,
}
use mydbg.Base.Bytes.{Bytes, codes, starts_with}
use mydbg.Base.FromChars.{FromChars, parsed, invalid_argument, out_of_range, from_chars}
use mydbg.Target.{
  MemoryRegionInfo, SessionSnapshot, is_stopped, region_containing, navigable_address,
}
use mydbg.Navigation.State.{read_memory, invalid_address, unmapped_address, UiState}
use mydbg.Navigation.History.{follow_disassembly}

pub data AppNavigationTarget : Type 0 where
  nowhere disassembly memory : AppNavigationTarget

unfoldable pub follow_memory : ℕ → UiState → UiState
follow_memory address ui = record ui {
  memory_address = some address;
  calls = ui.calls ++ read_memory address ∷ [];
}

-- The source reads `region->executable` of the region found; `none` cannot be met there, since the
-- address is navigable (`follow_region-some`).
unfoldable pub follow_region : ℕ → UiState → Option MemoryRegionInfo → AppNavigationTarget × UiState
unfolding follow_disassembly follow_memory
follow_region address ui none = (nowhere, ui)
follow_region address ui (some region) =
    if region.executable
    then (disassembly, follow_disassembly address ui)
    else (memory, follow_memory address ui)

unfoldable pub app_follow_address : SessionSnapshot → ℕ → UiState → AppNavigationTarget × UiState
unfolding navigable_address follow_region
app_follow_address snapshot address ui =
    if not (navigable_address snapshot.memory_regions address)
    then (nowhere, ui)
    else follow_region address ui (region_containing snapshot.memory_regions address)

-- `0x%PRIx64`
abbrev pub hex_digit : ℕ → ℕ
hex_digit d = if ltb d 10 then b'0' + d else b'a' + (d - 10)

abbrev strip_hex_prefix : Bytes → Bytes
strip_hex_prefix text =
    if starts_with (codes "0x") text || starts_with (codes "0X") text then drop 2 text else text

-- the whole input has to be digits
abbrev whole : FromChars → Option ℕ
whole (parsed value []) = some value
whole (parsed value (c ∷ cs)) = none
whole invalid_argument = none
whole (out_of_range rest) = none

abbrev pub submitted : AppNavigationTarget × UiState → AppNavigationTarget × UiState
submitted (nowhere, ui) = (nowhere, record ui { address_error = some unmapped_address })
submitted (disassembly, ui) = (disassembly, ui)
submitted (memory, ui) = (memory, ui)

abbrev pub submit_parsed : SessionSnapshot → UiState → Option ℕ → AppNavigationTarget × ℕ × UiState
submit_parsed snapshot ui none = (nowhere, 0, record ui { address_error = some invalid_address })
submit_parsed snapshot ui (some address) =
    let (target, ui') = submitted (app_follow_address snapshot address ui) in (target, address, ui')

-- AppNavigationResult and the new state
unfoldable pub app_submit_navigation_address :
    SessionSnapshot → UiState → AppNavigationTarget × ℕ × UiState
unfolding starts_with from_chars app_follow_address
app_submit_navigation_address snapshot ui =
    submit_parsed snapshot ui (whole (from_chars true (strip_hex_prefix ui.address_text)))

unfoldable pub app_toggle_navigation_graph : UiState → UiState
app_toggle_navigation_graph ui =
    let graph = not ui.disassembly_graph_view in
    record ui {
      disassembly_graph_view = graph;
      has_graph_state = if graph then ui.has_graph_state else false;
      disassembly_scroll_target = some ui.disassembly_cursor;
    }

unfoldable pub app_navigation_session_valid : SessionSnapshot → UiState → Bool
unfolding is_stopped
app_navigation_session_valid snapshot ui = is_stopped snapshot.state && not ui.control_locked
