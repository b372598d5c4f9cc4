-- ===== src/Memory/Selection/InBounds.antt =====
-- The selection over any sequence of snapshots and clicks: it lies in the dump.
use mydbg.Base.{
  ℕ, zero, suc, ◌+◌, ◌-◌, ◌≤◌, ◌<◌, ◌≡◌, refl, ap, ◌≢◌, inl, inr, Bool, true, false, not, ◌||◌,
  Option, none, some, [], ◌∷◌, arith, ◌==◌, if◌then◌else◌, Bool-cases, length, take, drop,
}
use mydbg.Base.Bytes.{Bytes}
use mathlib.Core.Path.{Path, subst}
use mydbg.Target.{SessionSnapshot}
use mydbg.Memory.Read.{debugger_memory_pointer}
use mydbg.Memory.Selection.{
  MemoryState, dump_changed, debugger_sync_memory_selection, both, last_within, outside,
  selection_ends, selection_start, selection_last, debugger_memory_has_selection,
  debugger_memory_selected_bytes, debugger_select_memory_byte, debugger_select_memory_context,
  drag_over, select_all, from_pointer, select_pointer,
}

-- The states of the panel at a snapshot: each snapshot is synchronised before a click on one of its
-- bytes, and the first one finds no selection.
pub data Reach : SessionSnapshot → MemoryState → Type 0 where
  first :
      (snapshot : SessionSnapshot) (state : MemoryState)
      → state.selection_anchor ≡ none
      → state.selection_end ≡ none
      → state.selection_dragging ≡ false
      → Reach snapshot (debugger_sync_memory_selection snapshot state)
  sync :
      (previous snapshot : SessionSnapshot) (state : MemoryState)
      → Reach previous state
      → Reach snapshot (debugger_sync_memory_selection snapshot state)
  select_byte :
      (snapshot : SessionSnapshot) (state : MemoryState) (offset : ℕ) (extend editing : Bool)
      → Reach snapshot state
      → offset < length snapshot.memory
      → Reach snapshot (debugger_select_memory_byte snapshot state offset extend editing)
  select_context :
      (snapshot : SessionSnapshot) (state : MemoryState) (offset : ℕ)
      → Reach snapshot state
      → offset < length snapshot.memory
      → Reach snapshot (debugger_select_memory_context snapshot state offset)
  drag :
      (snapshot : SessionSnapshot) (state : MemoryState) (offset : ℕ)
      → Reach snapshot state
      → offset < length snapshot.memory
      → Reach snapshot (drag_over state offset)
  release :
      (snapshot : SessionSnapshot) (state : MemoryState)
      → Reach snapshot state
      → Reach snapshot (record state { selection_dragging = false })
  everything :
      (snapshot : SessionSnapshot) (state : MemoryState)
      → Reach snapshot state
      → Reach snapshot (select_all snapshot state)
  pointer :
      (snapshot : SessionSnapshot) (state : MemoryState)
      → Reach snapshot state
      → Reach snapshot (select_pointer snapshot state)

abbrev BothWithin : ℕ → Option ℕ → Option ℕ → Type 0
BothWithin size none none = Unit
BothWithin size (some anchor) (some end) = (anchor < size) × (end < size)
BothWithin size (some anchor) none = ⊥
BothWithin size none (some end) = ⊥

-- A drag needs an anchor.
abbrev InBounds : SessionSnapshot → MemoryState → Type 0
InBounds snapshot state =
    (state.selection_size ≡ length snapshot.memory)
    × BothWithin state.selection_size state.selection_anchor state.selection_end
    × (state.selection_anchor ≡ none → state.selection_dragging ≡ false)

same_size :
    (snapshot : SessionSnapshot) (state : MemoryState)
    → dump_changed snapshot state ≡ false
    → state.selection_size ≡ length snapshot.memory
unfolding dump_changed
same_size snapshot state h = ground arith

sync-InBounds :
    (snapshot : SessionSnapshot) (state : MemoryState)
    → BothWithin state.selection_size state.selection_anchor state.selection_end
    → (state.selection_anchor ≡ none → state.selection_dragging ≡ false)
    → InBounds snapshot (debugger_sync_memory_selection snapshot state)
unfolding debugger_sync_memory_selection
sync-InBounds snapshot state h d = elim (Bool-cases (dump_changed snapshot state)) [
  | inl e ↦ rw e (refl, tt, λ n. refl)
  | inr e ↦ rw e (same_size snapshot state e, h, d)
]

no_selection :
    (state : MemoryState)
    → state.selection_anchor ≡ none
    → state.selection_end ≡ none
    → BothWithin state.selection_size state.selection_anchor state.selection_end
no_selection state a e = rw (a, e) tt

one_of :
    (size a offset : ℕ) (b : Bool)
    → a < size
    → offset < size
    → BothWithin size (if b then some offset else some a) (some offset)
one_of size a offset true h l = (l, l)
one_of size a offset false h l = (h, l)

no_anchor :
    (size offset : ℕ) (extend : Bool)
    → offset < size
    → BothWithin size (if not extend || true then some offset else none) (some offset)
no_anchor size offset true l = (l, l)
no_anchor size offset false l = (l, l)

extended :
    (snapshot : SessionSnapshot) (size : ℕ) (anchor end : Option ℕ) (offset : ℕ) (extend : Bool)
    → BothWithin size anchor end
    → offset < size
    → BothWithin size
        (if not extend || not (last_within snapshot (both anchor end)) then some offset else anchor)
        (some offset)
extended snapshot size none none offset extend h l = no_anchor size offset extend l
extended snapshot size (some a) (some e) offset extend h l = one_of size a offset _ h.0 l
extended snapshot size (some a) none offset extend h l = absurd h
extended snapshot size none (some e) offset extend h l = absurd h

anchored :
    (anchor : Option ℕ) (offset : ℕ) (b dragging : Bool)
    → (anchor ≡ none → b ≡ true)
    → (if b then some offset else anchor) ≡ none
    → dragging ≡ false
anchored anchor offset true dragging h e = absurd (grind (arith, e))
anchored anchor offset false dragging h e = absurd (grind (arith, h e))

no_anchor_no_selection :
    (snapshot : SessionSnapshot) (anchor end : Option ℕ) (extend : Bool)
    → anchor ≡ none
    → (not extend || not (last_within snapshot (both anchor end))) ≡ true
no_anchor_no_selection snapshot none end extend h = ground arith
no_anchor_no_selection snapshot (some a) end extend h = absurd (grind (arith, h))

select_byte-InBounds :
    (snapshot : SessionSnapshot) (state : MemoryState) (offset : ℕ) (extend editing : Bool)
    → InBounds snapshot state
    → offset < length snapshot.memory
    → InBounds snapshot (debugger_select_memory_byte snapshot state offset extend editing)
unfolding debugger_select_memory_byte debugger_memory_has_selection
select_byte-InBounds snapshot state offset extend editing (s, h, d) l = (
  s,
  extended snapshot state.selection_size state.selection_anchor state.selection_end offset extend h
      (omega arith),
  anchored state.selection_anchor offset _ (not editing)
      (no_anchor_no_selection snapshot state.selection_anchor state.selection_end extend),
)

select_context-InBounds :
    (snapshot : SessionSnapshot) (state : MemoryState) (offset : ℕ)
    → InBounds snapshot state
    → offset < length snapshot.memory
    → InBounds snapshot (debugger_select_memory_context snapshot state offset)
unfolding debugger_select_memory_context
select_context-InBounds snapshot state offset (s, h, d) l =
    elim (Bool-cases (
      not (debugger_memory_has_selection snapshot state)
      || outside offset (selection_ends state))) [
        | inl e ↦ rw e (s, (omega arith, omega arith), λ n. refl)
        | inr e ↦ rw e (s, h, λ n. refl)
      ]

dragged :
    (size : ℕ) (anchor end : Option ℕ) (offset : ℕ)
    → BothWithin size anchor end
    → anchor ≢ none
    → offset < size
    → BothWithin size anchor (some offset)
dragged size none end offset h a l = absurd (a refl)
dragged size (some a) none offset h b l = absurd h
dragged size (some a) (some e) offset h b l = (h.0, l)

drag_over-InBounds :
    (snapshot : SessionSnapshot) (state : MemoryState) (offset : ℕ)
    → InBounds snapshot state
    → offset < length snapshot.memory
    → InBounds snapshot (drag_over state offset)
unfolding drag_over
drag_over-InBounds snapshot state offset (s, h, d) l = elim (Bool-cases state.selection_dragging) [
  | inl e ↦ rw e (
    s,
    dragged state.selection_size state.selection_anchor state.selection_end offset h
        (λ n. absurd (grind (arith, d n, e))) (omega arith),
    λ n. absurd (grind (arith, d n, e)),
  )
  | inr e ↦ rw e (s, h, λ n. refl)
]

select_all-InBounds :
    (snapshot : SessionSnapshot) (state : MemoryState)
    → InBounds snapshot state
    → InBounds snapshot (select_all snapshot state)
unfolding select_all
select_all-InBounds snapshot state (s, h, d) = elim (Bool-cases (length snapshot.memory == 0)) [
  | inl e ↦ rw e (s, h, d)
  | inr e ↦ rw e (s, (ground arith, ground arith), λ n. absurd (grind (arith, n)))
]

pointer_fits :
    (snapshot : SessionSnapshot) (offset : ℕ)
    → (debugger_memory_pointer snapshot offset).full_pointer ≡ true
    → (offset < length snapshot.memory)
      × (offset + (debugger_memory_pointer snapshot offset).width - 1 < length snapshot.memory)
unfolding debugger_memory_pointer
pointer_fits snapshot offset h = ground arith

from_pointer-InBounds :
    (snapshot : SessionSnapshot) (state : MemoryState) (ends : Option (ℕ × ℕ))
    → InBounds snapshot state
    → InBounds snapshot (from_pointer snapshot state ends)
unfolding from_pointer
from_pointer-InBounds snapshot state none h = h
from_pointer-InBounds snapshot state (some ends) (s, h, d) =
    elim (Bool-cases (debugger_memory_pointer snapshot (selection_start ends)).full_pointer) [
      | inl e ↦ rw e (
        s,
        (let fits = pointer_fits snapshot (selection_start ends) e in
            (omega (arith, fits.0), omega (arith, fits.1))),
        λ n. absurd (grind (arith, n)),
      )
      | inr e ↦ rw e (s, h, d)
    ]

select_pointer-InBounds :
    (snapshot : SessionSnapshot) (state : MemoryState)
    → InBounds snapshot state
    → InBounds snapshot (select_pointer snapshot state)
unfolding select_pointer
select_pointer-InBounds snapshot state h =
    elim (Bool-cases (debugger_memory_has_selection snapshot state)) [
      | inl e ↦ rw e (from_pointer-InBounds snapshot state (selection_ends state) h)
      | inr e ↦ rw e h
    ]

Reach-InBounds :
    (snapshot : SessionSnapshot) (state : MemoryState)
    → Reach snapshot state
    → InBounds snapshot state
Reach-InBounds _ _ (first snapshot state a e d) =
    sync-InBounds snapshot state (no_selection state a e) (λ n. d)
Reach-InBounds _ _ (sync previous snapshot state r) =
    let ih = Reach-InBounds previous state r in sync-InBounds snapshot state ih.1 ih.2
Reach-InBounds _ _ (select_byte snapshot state offset extend editing r l) =
    select_byte-InBounds snapshot state offset extend editing (Reach-InBounds snapshot state r) l
Reach-InBounds _ _ (select_context snapshot state offset r l) =
    select_context-InBounds snapshot state offset (Reach-InBounds snapshot state r) l
Reach-InBounds _ _ (drag snapshot state offset r l) =
    drag_over-InBounds snapshot state offset (Reach-InBounds snapshot state r) l
Reach-InBounds _ _ (release snapshot state r) =
    let ih = Reach-InBounds snapshot state r in (ih.0, ih.1, λ n. refl)
Reach-InBounds _ _ (everything snapshot state r) =
    select_all-InBounds snapshot state (Reach-InBounds snapshot state r)
Reach-InBounds _ _ (pointer snapshot state r) =
    select_pointer-InBounds snapshot state (Reach-InBounds snapshot state r)

length-take-drop :
    (skipped count : ℕ) (bytes : Bytes)
    → skipped + count ≤ length bytes
    → length (take count (drop skipped bytes)) ≡ count
length-take-drop zero zero bytes h = refl
length-take-drop zero (suc count) [] h = absurd (omega arith)
length-take-drop zero (suc count) (b ∷ bytes) h =
    ap suc (length-take-drop zero count bytes (omega arith))
length-take-drop (suc skipped) zero [] h = refl
length-take-drop (suc skipped) (suc count) [] h = absurd (omega arith)
length-take-drop (suc skipped) count (b ∷ bytes) h =
    length-take-drop skipped count bytes (omega arith)

abbrev or_else : ℕ × ℕ → Option (ℕ × ℕ) → ℕ × ℕ
or_else d none = d
or_else d (some x) = x

both_ends :
    (snapshot : SessionSnapshot) (a e : ℕ) (ends : ℕ × ℕ)
    → a < length snapshot.memory
    → e < length snapshot.memory
    → Path (Option (ℕ × ℕ)) (some (a, e)) (some ends)
    → (last_within snapshot (some (a, e)) ≡ true)
      × (selection_last ends < length snapshot.memory)
      × (selection_start ends ≤ selection_last ends)
both_ends snapshot a e ends p q f =
    subst
      (λ (x : ℕ × ℕ).
        (last_within snapshot (some (a, e)) ≡ true)
        × (selection_last x < length snapshot.memory)
        × (selection_start x ≤ selection_last x))
      (ap (or_else (a, e)) f) (ground arith, ground arith, ground arith)

selected :
    (snapshot : SessionSnapshot) (size : ℕ) (anchor end : Option ℕ)
    → BothWithin size anchor end
    → size ≡ length snapshot.memory
    → ((ends : ℕ × ℕ)
        → both anchor end ≡ some ends
        → (last_within snapshot (both anchor end) ≡ true)
          × (selection_last ends < length snapshot.memory)
          × (selection_start ends ≤ selection_last ends))
      × (both anchor end ≡ none → (anchor ≡ none) × (end ≡ none))
selected snapshot size none none h s = ground arith
selected snapshot size (some a) (some e) h s = (
  (λ ends f. both_ends snapshot a e ends (omega arith) (omega arith) f),
  (λ f. absurd (grind (arith, f))),
)
selected snapshot size (some a) none h s = absurd h
selected snapshot size none (some e) h s = absurd h

-- In every state of the memory panel that snapshots and clicks on bytes of the dump lead to (`Reach`),
-- with the snapshot that is shown: where the selection has both ends, `debugger_memory_has_selection`
-- holds, and `debugger_memory_selected_bytes` gives as many bytes as the selection spans, so none is
-- missing at the dump's end. Where it has not both ends, it has neither.
pub Reach-selected :
    (snapshot : SessionSnapshot) (state : MemoryState)
    → Reach snapshot state
    → ((ends : ℕ × ℕ)
        → selection_ends state ≡ some ends
        → (debugger_memory_has_selection snapshot state ≡ true)
          × (length (debugger_memory_selected_bytes snapshot ends)
              ≡ selection_last ends - selection_start ends + 1))
      × (selection_ends state ≡ none
          → (state.selection_anchor ≡ none) × (state.selection_end ≡ none))
unfolding debugger_memory_selected_bytes debugger_memory_has_selection
Reach-selected snapshot state r =
    let (s, h, d) = Reach-InBounds snapshot state r in
    let facts =
      selected snapshot state.selection_size state.selection_anchor state.selection_end h s in
    (
      (λ ends e.
          let here = facts.0 ends e in
          (
            here.0,
            length-take-drop (selection_start ends) (selection_last ends - selection_start ends + 1)
                snapshot.memory (omega (arith, here)),
          )),
      facts.1,
    )
