-- ===== src/Actions/Permitted.antt =====
-- What an enabled debug action asks of the engine fits the state of the session.
use mydbg.Base.{
  ◌≡◌, refl, ap, ◌≢◌, ◌⊎◌, inl, inr, Bool, true, false, not, ◌&&◌, ◌||◌, Option, none, some, List,
  [], ◌∷◌, arith, ◌==◌, if◌then◌else◌, Bool-cases, Option-cases, and-eq-true, find?,
}
use mydbg.Base.Bytes.{Bytes, codes, equal}
use mathlib.Core.Path.{subst}
use mydbg.Target.{
  SessionState, no_target, target_loaded, launching, running, stopped, exited, error, is_stopped,
}
use mydbg.Actions.{
  DebugAction, start_continue, pause, terminate, start_main, start_entry, toggle_breakpoint,
  run_to_cursor, source_step_into, source_step_over, instruction_step_into, instruction_step_over,
  finish_function, next_call, next_branch, next_return, next_system_call, count, Call,
  continue_execution, stop_process, terminate_process, launch, execute_command, remove_breakpoint,
  set_breakpoint, run_to_address, step_instruction, BreakpointInfo, at_cursor, toggled, launchable,
  with_process, is_running, Context, is_empty, without_process, can_start_or_continue,
  can_terminate, start_or_continue, breakpoint_info_at, address_text, toggle_cursor_breakpoint,
  can_launch, debug_action_enabled, execute_debug_action,
}

-- The commands that start the target anew; every other one resumes a stopped process.
abbrev launches : Bytes → Bool
launches name = equal name (codes "start") || equal name (codes "entry")

-- When a call makes sense to the engine, by what it does: only a stopped process is resumed, stepped
-- or has its breakpoints set, a new process needs a program and no live one, a pause needs a running
-- process, and only a live process is terminated.
abbrev pub Fits : Context → Call → Type 0
Fits c continue_execution = c.state ≡ stopped
Fits c stop_process = c.state ≡ running
Fits c terminate_process = (c.state ≡ launching) ⊎ (c.state ≡ running) ⊎ (c.state ≡ stopped)
Fits c (launch path) =
    (path ≢ [])
    × ((c.state ≡ no_target) ⊎ (c.state ≡ target_loaded) ⊎ (c.state ≡ exited) ⊎ (c.state ≡ error))
Fits c (execute_command name) =
    if launches name
    then (c.target_path ≢ []) × ((c.state ≡ target_loaded) ⊎ (c.state ≡ exited) ⊎ (c.state ≡ error))
    else c.state ≡ stopped
Fits c (remove_breakpoint id) =
    (c.state ≡ stopped)
    × (breakpoint : BreakpointInfo) × (breakpoint_info_at c.breakpoints c.disassembly_cursor
        ≡ some breakpoint)
    × (at_cursor c.disassembly_cursor breakpoint ≡ true)
    × (breakpoint.id ≡ id)
Fits c (set_breakpoint text) =
    (c.state ≡ stopped)
    × (breakpoint_info_at c.breakpoints c.disassembly_cursor ≡ none)
    × (text ≡ address_text c.disassembly_cursor)
    × (c.disassembly_cursor ≢ 0)
Fits c (run_to_address address) = (c.state ≡ stopped) × (address ≢ 0)
Fits c (step_instruction over) = c.state ≡ stopped

abbrev One : Context → List Call → Type 0
One c calls = (call : Call) × (calls ≡ call ∷ []) × Fits c call

stopped_state : (state : SessionState) → is_stopped state ≡ true → state ≡ stopped
unfolding is_stopped
stopped_state stopped h = refl
stopped_state _ h = absurd (ground arith)

or_else : BreakpointInfo → Option BreakpointInfo → BreakpointInfo
or_else d none = d
or_else d (some b) = b

first_found :
    (p : BreakpointInfo → Bool) (x : BreakpointInfo) (xs : List BreakpointInfo) (b : BreakpointInfo)
    → p x ≡ true
    → find? p (x ∷ xs) ≡ some b
    → x ≡ b
unfolding or_else
first_found p x xs b e h =
    ap (or_else x) (subst (λ (t : Bool). (if t then some x else find? p xs) ≡ some b) e h)

found :
    (p : BreakpointInfo → Bool) (l : List BreakpointInfo) (b : BreakpointInfo)
    → find? p l ≡ some b
    → p b ≡ true
found p [] b h = ground arith
found p (x ∷ xs) b h = elim (Bool-cases (p x)) [
  | inl e ↦ subst (λ (y : BreakpointInfo). p y ≡ true) (first_found p x xs b e h) e
  | inr e ↦ found p xs b (subst (λ (t : Bool). (if t then some x else find? p xs) ≡ some b) e h)
]

toggle-One :
    (c : Context)
    → is_stopped c.state ≡ true
    → c.disassembly_cursor ≢ 0
    → One c (toggle_cursor_breakpoint c)
unfolding toggle_cursor_breakpoint toggled breakpoint_info_at
toggle-One c h z = elim (Option-cases (breakpoint_info_at c.breakpoints c.disassembly_cursor)) [
  | inl e ↦ (
    set_breakpoint (address_text c.disassembly_cursor),
    ap (toggled c.disassembly_cursor) e,
    (stopped_state c.state h, e, refl, z),
  )
  | inr (b, e) ↦ (
    remove_breakpoint b.id,
    ap (toggled c.disassembly_cursor) e,
    (stopped_state c.state h, b, e, found (at_cursor c.disassembly_cursor) c.breakpoints b e, refl),
  )
]

running_state : (state : SessionState) → is_running state ≡ true → state ≡ running
running_state running h = refl
running_state _ h = absurd (ground arith)

live :
    (state : SessionState)
    → with_process state ≡ true
    → (state ≡ launching) ⊎ (state ≡ running) ⊎ (state ≡ stopped)
live launching h = inl refl
live running h = inr (inl refl)
live stopped h = inr (inr refl)
live _ h = absurd (ground arith)

live_state :
    (c : Context)
    → can_terminate c ≡ true
    → (c.state ≡ launching) ⊎ (c.state ≡ running) ⊎ (c.state ≡ stopped)
unfolding can_terminate
live_state c h = live c.state h

loaded :
    (state : SessionState)
    → launchable state ≡ true
    → (state ≡ target_loaded) ⊎ (state ≡ exited) ⊎ (state ≡ error)
loaded target_loaded h = inl refl
loaded exited h = inr (inl refl)
loaded error h = inr (inr refl)
loaded _ h = absurd (ground arith)

has_text : (text : Bytes) → not (is_empty text) ≡ true → text ≢ []
has_text [] h = absurd (ground arith)
has_text (c ∷ cs) h = λ e. absurd (grind (arith, e))

launch_state :
    (c : Context)
    → can_launch c ≡ true
    → (c.target_path ≢ []) × ((c.state ≡ target_loaded) ⊎ (c.state ≡ exited) ⊎ (c.state ≡ error))
unfolding can_launch
launch_state c h =
    let both = and-eq-true (not (is_empty c.target_path)) (launchable c.state) h in
    (has_text c.target_path both.0, loaded c.state both.1)

at_place :
    (c : Context)
    → (is_stopped c.state && not (c.disassembly_cursor == 0)) ≡ true
    → (is_stopped c.state ≡ true) × (c.disassembly_cursor ≢ 0)
at_place c h = ground arith

absent :
    (state : SessionState)
    → without_process state ≡ true
    → (state ≡ no_target) ⊎ (state ≡ target_loaded) ⊎ (state ≡ exited) ⊎ (state ≡ error)
absent no_target h = inl refl
absent target_loaded h = inr (inl refl)
absent exited h = inr (inr (inl refl))
absent error h = inr (inr (inr refl))
absent _ h = absurd (ground arith)

start_continue-One : (c : Context) → can_start_or_continue c ≡ true → One c (start_or_continue c)
unfolding can_start_or_continue start_or_continue
start_continue-One c h = elim (Bool-cases (is_stopped c.state)) [
  | inl e ↦ (continue_execution, rw e refl, stopped_state c.state e)
  | inr e ↦
      let both = and-eq-true (without_process c.state) (not (is_empty c.executable_path)) (
        subst
          (λ (t : Bool).
            (t || (without_process c.state && not (is_empty c.executable_path))) ≡ true)
          e h) in
      (
        launch c.executable_path,
        rw e refl,
        (has_text c.executable_path both.1, absent c.state both.0),
      )
]

-- A debug action that is enabled asks the engine for exactly one thing, and one that fits the state of
-- the session: a stopped process to continue, step or set breakpoints in, no live process and a path
-- to launch, a running process to pause, a live one to terminate. A breakpoint is removed only if it
-- stands at the cursor, and set only if none does.
pub execute_debug_action-Fits :
    (action : DebugAction) (c : Context)
    → debug_action_enabled action c ≡ true
    → (call : Call) × (execute_debug_action action c ≡ call ∷ []) × Fits c call
unfolding debug_action_enabled execute_debug_action equal
execute_debug_action-Fits start_continue c h = start_continue-One c h
execute_debug_action-Fits pause c h = (stop_process, refl, running_state c.state h)
execute_debug_action-Fits terminate c h = (terminate_process, refl, live_state c h)
execute_debug_action-Fits start_main c h = (execute_command (codes "start"), refl, launch_state c h)
execute_debug_action-Fits start_entry c h =
    (execute_command (codes "entry"), refl, launch_state c h)
execute_debug_action-Fits toggle_breakpoint c h =
    let both = at_place c h in toggle-One c both.0 both.1
execute_debug_action-Fits run_to_cursor c h =
    let both = at_place c h in
    (run_to_address c.disassembly_cursor, refl, (stopped_state c.state both.0, both.1))
execute_debug_action-Fits source_step_into c h =
    (execute_command (codes "step"), refl, stopped_state c.state h)
execute_debug_action-Fits source_step_over c h =
    (execute_command (codes "next"), refl, stopped_state c.state h)
execute_debug_action-Fits instruction_step_into c h =
    (step_instruction false, refl, stopped_state c.state h)
execute_debug_action-Fits instruction_step_over c h =
    (step_instruction true, refl, stopped_state c.state h)
execute_debug_action-Fits finish_function c h =
    (execute_command (codes "finish"), refl, stopped_state c.state h)
execute_debug_action-Fits next_call c h =
    (execute_command (codes "nextcall"), refl, stopped_state c.state h)
execute_debug_action-Fits next_branch c h =
    (execute_command (codes "nextjmp"), refl, stopped_state c.state h)
execute_debug_action-Fits next_return c h =
    (execute_command (codes "nextret"), refl, stopped_state c.state h)
execute_debug_action-Fits next_system_call c h =
    (execute_command (codes "nextsyscall"), refl, stopped_state c.state h)
execute_debug_action-Fits count c h = absurd (ground arith)
