-- ===== src/Actions.antt =====
-- src/app/AppActions.cpp: the debug actions of menus and keys, when they are enabled and what they ask
-- of the engine. A call of the engine is a value.
pub mod Permitted
use mydbg.Base.{
  ℕ, zero, suc, ◌+◌, ◌-◌, ◌*◌, ◌/◌, ◌%◌, ◌^◌, ◌≤◌, ◌<◌, ◌≡◌, refl, sym, ap, ◌∙◌, ◌≢◌, ◌↔◌, ◌⊎◌, inl,
  inr, Bool, true, false, not, ◌&&◌, ◌||◌, Option, none, some, List, [], ◌∷◌, ◌++◌, map, append-nil,
  append_assoc, arith, leb, ltb, ◌==◌, if◌then◌else◌, leb→le, ltb→lt, lt→ltb, le→not-ltb, ==_iff,
  ==_refl, Bool-cases, Option-cases, List-cases, and-eq-true, and_then, length, get_elem?, get_or,
  set, take, drop, replicate, take_while, drop_while, all, find?, tabulate, All, length-append,
  length-drop, length-set, length-drop_while-le, length-tabulate, Stops, take_while-append,
  drop_while-append, all-append, all-take_while, take_while-all, drop_while-all,
}
use mydbg.Base.Bytes.{
  Bytes, codes, is_space, is_digit, is_alpha, is_xdigit, is_word, hex_value, equal, equal_iff,
  starts_with, starts_with-append, drop-append,
}
use mydbg.Target.{
  SessionState, initializing, no_target, target_loaded, launching, connecting, running, stopped,
  exited, error, shutting_down, is_stopped, any,
}

pub data DebugAction : Type 0 where
  start_continue pause terminate start_main start_entry toggle_breakpoint run_to_cursor :
      DebugAction
  source_step_into source_step_over instruction_step_into instruction_step_over : DebugAction
  finish_function next_call next_branch next_return next_system_call count : DebugAction

pub data Call : Type 0 where
  continue_execution stop_process terminate_process : Call
  launch : Bytes → Call
  execute_command : Bytes → Call
  remove_breakpoint : ℕ → Call
  set_breakpoint : Bytes → Call
  run_to_address : ℕ → Call
  step_instruction : Bool → Call

pub record BreakpointInfo : Type 0 where
  pub id : ℕ
  pub addresses : List ℕ

-- What the actions read of the snapshot and of the user interface. `executable_path` is the text of
-- the buffer, empty where its first character is '\0'.
pub record Context : Type 0 where
  pub state : SessionState
  pub target_path : Bytes
  pub breakpoints : List BreakpointInfo
  pub executable_path : Bytes
  pub disassembly_cursor : ℕ

abbrev pub is_empty : Bytes → Bool
is_empty [] = true
is_empty (c ∷ cs) = false

abbrev pub without_process : SessionState → Bool
without_process no_target = true
without_process target_loaded = true
without_process exited = true
without_process error = true
without_process _ = false

unfoldable pub can_start_or_continue : Context → Bool
unfolding is_stopped
can_start_or_continue c =
    is_stopped c.state || (without_process c.state && not (is_empty c.executable_path))

abbrev pub with_process : SessionState → Bool
with_process launching = true
with_process running = true
with_process stopped = true
with_process _ = false

unfoldable pub can_terminate : Context → Bool
can_terminate c = with_process c.state

unfoldable pub start_or_continue : Context → List Call
unfolding is_stopped
start_or_continue c =
    if is_stopped c.state then continue_execution ∷ [] else launch c.executable_path ∷ []

-- the address is found among those of the breakpoint
abbrev pub at_cursor : ℕ → BreakpointInfo → Bool
at_cursor address breakpoint = any (λ a. a == address) breakpoint.addresses

unfoldable pub breakpoint_info_at : List BreakpointInfo → ℕ → Option BreakpointInfo
breakpoint_info_at breakpoints address = find? (at_cursor address) breakpoints

-- `%x`: a number has at most 16 hexadecimal digits.
unfoldable pub hexadecimal : ℕ → ℕ → Bytes → Bytes
hexadecimal zero n text = text
hexadecimal (suc fuel) n text =
    let longer = hexadecimal fuel (n / 16) (get_or (codes "0123456789abcdef") (n % 16) 0 ∷ text) in
    if n == 0 then text else longer

unfoldable pub address_text : ℕ → Bytes
unfolding hexadecimal
address_text address = codes "0x" ++ (if address == 0 then codes "0" else hexadecimal 16 address [])

unfoldable pub toggled : ℕ → Option BreakpointInfo → List Call
unfolding address_text
toggled cursor none = set_breakpoint (address_text cursor) ∷ []
toggled cursor (some breakpoint) = remove_breakpoint breakpoint.id ∷ []

unfoldable pub toggle_cursor_breakpoint : Context → List Call
unfolding toggled breakpoint_info_at
toggle_cursor_breakpoint c =
    toggled c.disassembly_cursor (breakpoint_info_at c.breakpoints c.disassembly_cursor)

abbrev pub launchable : SessionState → Bool
launchable target_loaded = true
launchable exited = true
launchable error = true
launchable _ = false

abbrev pub is_running : SessionState → Bool
is_running running = true
is_running _ = false

unfoldable pub can_launch : Context → Bool
can_launch c = not (is_empty c.target_path) && launchable c.state

unfoldable pub debug_action_enabled : DebugAction → Context → Bool
unfolding is_stopped can_start_or_continue can_terminate can_launch
debug_action_enabled start_continue c = can_start_or_continue c
debug_action_enabled pause c = is_running c.state
debug_action_enabled terminate c = can_terminate c
debug_action_enabled start_main c = can_launch c
debug_action_enabled start_entry c = can_launch c
debug_action_enabled toggle_breakpoint c = is_stopped c.state && not (c.disassembly_cursor == 0)
debug_action_enabled run_to_cursor c = is_stopped c.state && not (c.disassembly_cursor == 0)
debug_action_enabled count c = false
debug_action_enabled _ c = is_stopped c.state

unfoldable pub execute_debug_action : DebugAction → Context → List Call
unfolding start_or_continue toggle_cursor_breakpoint
execute_debug_action start_continue c = start_or_continue c
execute_debug_action pause c = stop_process ∷ []
execute_debug_action terminate c = terminate_process ∷ []
execute_debug_action start_main c = execute_command (codes "start") ∷ []
execute_debug_action start_entry c = execute_command (codes "entry") ∷ []
execute_debug_action toggle_breakpoint c = toggle_cursor_breakpoint c
execute_debug_action run_to_cursor c = run_to_address c.disassembly_cursor ∷ []
execute_debug_action source_step_into c = execute_command (codes "step") ∷ []
execute_debug_action source_step_over c = execute_command (codes "next") ∷ []
execute_debug_action instruction_step_into c = step_instruction false ∷ []
execute_debug_action instruction_step_over c = step_instruction true ∷ []
execute_debug_action finish_function c = execute_command (codes "finish") ∷ []
execute_debug_action next_call c = execute_command (codes "nextcall") ∷ []
execute_debug_action next_branch c = execute_command (codes "nextjmp") ∷ []
execute_debug_action next_return c = execute_command (codes "nextret") ∷ []
execute_debug_action next_system_call c = execute_command (codes "nextsyscall") ∷ []
execute_debug_action count c = []
