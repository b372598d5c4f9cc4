-- ===== src/Graph/Nearest.antt =====
-- The address that src/app/DisassemblyGraphLayout.cpp finds next to the cursor.
use mydbg.Base.{
  All, ℕ, ◌≤◌, ◌<◌, ◌≡◌, refl, ◌∙◌, ◌⊎◌, inl, inr, Bool, true, false, not, Option, none, some, List,
  [], ◌∷◌, arith, if◌then◌else◌, Bool-cases,
}
use mathlib.Core.Path.{subst}
use mydbg.Graph.{Blocks, improves, visit_rows, visit_blocks, disassembly_graph_adjacent_address}

-- The address lies on the side of the cursor that is asked for: before it, or behind it.
abbrev pub OnSide : (up : Bool) → (cursor address : ℕ) → Type 0
OnSide true cursor address = address < cursor
OnSide false cursor address = cursor < address

-- The address does not, or it is not nearer than the best one.
abbrev pub NotNearer : (up : Bool) → (cursor : ℕ) → (next : Option ℕ) → (address : ℕ) → Type 0
NotNearer true cursor none address = cursor ≤ address
NotNearer false cursor none address = address ≤ cursor
NotNearer true cursor (some best) address = (cursor ≤ address) ⊎ (address ≤ best)
NotNearer false cursor (some best) address = (address ≤ cursor) ⊎ (best ≤ address)

abbrev pub HasRow : List ℕ → ℕ → Type 0
HasRow [] address = ⊥
HasRow (row ∷ rows) address = (address ≡ row) ⊎ HasRow rows address

abbrev pub HasAddress : Blocks → ℕ → Type 0
HasAddress [] address = ⊥
HasAddress (rows ∷ blocks) address = HasRow rows address ⊎ HasAddress blocks address

abbrev ValidBest : (up : Bool) → (cursor : ℕ) → Option ℕ → Type 0
ValidBest up cursor none = Unit
ValidBest up cursor (some best) = OnSide up cursor best

module _ (up : Bool) (cursor : ℕ) where
  abbrev stepped : Option ℕ → ℕ → Option ℕ
  stepped next address = if improves cursor up (not up) next address then some address else next

-- One row
step-NotNearer :
    (up : Bool) (cursor : ℕ) (next : Option ℕ) (address seen : ℕ)
    → NotNearer up cursor next seen
    → NotNearer up cursor (stepped up cursor next address) seen
unfolding improves
step-NotNearer true cursor none address seen h = ground (arith, h)
step-NotNearer true cursor (some best) address seen h = ground (arith, h)
step-NotNearer false cursor none address seen h = ground (arith, h)
step-NotNearer false cursor (some best) address seen h = ground (arith, h)

own-NotNearer :
    (up : Bool) (cursor : ℕ) (next : Option ℕ) (address : ℕ)
    → NotNearer up cursor (stepped up cursor next address) address
unfolding improves
own-NotNearer true cursor none address = ground arith
own-NotNearer true cursor (some best) address = ground arith
own-NotNearer false cursor none address = ground arith
own-NotNearer false cursor (some best) address = ground arith

step-ValidBest :
    (up : Bool) (cursor : ℕ) (next : Option ℕ) (address : ℕ)
    → ValidBest up cursor next
    → ValidBest up cursor (stepped up cursor next address)
unfolding improves
step-ValidBest true cursor none address h = ground (arith, h)
step-ValidBest true cursor (some best) address h = ground (arith, h)
step-ValidBest false cursor none address h = ground (arith, h)
step-ValidBest false cursor (some best) address h = ground (arith, h)

-- What a part of the loop makes of the best address so far
record Visited (up : Bool) (cursor : ℕ) (Has : ℕ → Type 0) (before after : Option ℕ) : Type 0 where
  is_valid : ValidBest up cursor before → ValidBest up cursor after
  keeps : (seen : ℕ) → NotNearer up cursor before seen → NotNearer up cursor after seen
  covers : (address : ℕ) → Has address → NotNearer up cursor after address
  origin : (after ≡ before) ⊎ ((best : ℕ) × (after ≡ some best) × Has best)

step_origin :
    (up : Bool) (cursor : ℕ) (next : Option ℕ) (address : ℕ)
    → (stepped up cursor next address ≡ next) ⊎ (stepped up cursor next address ≡ some address)
step_origin up cursor next address = elim (Bool-cases (improves cursor up (not up) next address)) [
  | inl h ↦ rw h (inr refl)
  | inr h ↦ rw h (inl refl)
]

module _ (up : Bool) (cursor : ℕ) where
  rows-Visited :
      (rows : List ℕ) (next : Option ℕ)
      → Visited up cursor (HasRow rows) next (visit_rows cursor up (not up) next rows)
  unfolding visit_rows
  rows-Visited [] next = record {
    is_valid = λ h. h;
    keeps = λ seen h. h;
    covers = λ address h. elim h [ ];
    origin = inl refl;
  }
  rows-Visited (row ∷ rows) next =
      let later = rows-Visited rows (stepped up cursor next row) in
      record {
        is_valid = λ h. later.is_valid (step-ValidBest up cursor next row h);
        keeps = λ seen h. later.keeps seen (step-NotNearer up cursor next row seen h);
        covers = λ address has. elim has [
          | inl same ↦ later.keeps address (rw same (own-NotNearer up cursor next row))
          | inr h ↦ later.covers address h
        ];
        origin = elim later.origin [
          | inl same ↦ elim (step_origin up cursor next row) [
            | inl kept ↦ inl (same ∙ kept)
            | inr new ↦ inr (row, same ∙ new, inl refl)
          ]
          | inr found ↦ inr (found.0, found.1, inr found.2)
        ];
      }

  blocks-Visited :
      (blocks : Blocks) (next : Option ℕ)
      → Visited up cursor (HasAddress blocks) next (visit_blocks cursor up (not up) next blocks)
  unfolding visit_blocks
  blocks-Visited [] next = record {
    is_valid = λ h. h;
    keeps = λ seen h. h;
    covers = λ address h. elim h [ ];
    origin = inl refl;
  }
  blocks-Visited (rows ∷ blocks) next =
      let first = rows-Visited rows next in
      let later = blocks-Visited blocks (visit_rows cursor up (not up) next rows) in
      record {
        is_valid = λ h. later.is_valid (first.is_valid h);
        keeps = λ seen h. later.keeps seen (first.keeps seen h);
        covers = λ address has. elim has [
          | inl h ↦ later.keeps address (first.covers address h)
          | inr h ↦ later.covers address h
        ];
        origin = elim later.origin [
          | inl same ↦ elim first.origin [
            | inl kept ↦ inl (same ∙ kept)
            | inr found ↦ inr (found.0, same ∙ found.1, inl found.2)
          ]
          | inr found ↦ inr (found.0, found.1, inr found.2)
        ];
      }

each_row :
    {P : ℕ → Type 0} (rows : List ℕ)
    → ((address : ℕ) → HasRow rows address → P address)
    → All P rows
each_row [] h = tt
each_row (row ∷ rows) h = (h row (inl refl), each_row rows (λ address has. h address (inr has)))

each_block :
    {P : ℕ → Type 0} (blocks : Blocks)
    → ((address : ℕ) → HasAddress blocks address → P address)
    → All (All P) blocks
each_block [] h = tt
each_block (rows ∷ blocks) h = (
  each_row rows (λ address has. h address (inl has)),
  each_block blocks (λ address has. h address (inr has)),
)

-- The address next to the cursor, before it or behind it as asked, is an address of the graph on this
-- side of the cursor, and none of the graph's addresses on this side is nearer. Without a result, the
-- graph has no address on this side.
pub disassembly_graph_adjacent_address-NotNearer :
    (blocks : Blocks) (cursor : ℕ) (up : Bool)
    → All
        (All (NotNearer up cursor (disassembly_graph_adjacent_address blocks cursor up (not up))))
        blocks
      × ((disassembly_graph_adjacent_address blocks cursor up (not up) ≡ none)
          ⊎ ((best : ℕ) × (disassembly_graph_adjacent_address blocks cursor up (not up) ≡ some best)
              × HasAddress blocks best
              × OnSide up cursor best))
unfolding disassembly_graph_adjacent_address
disassembly_graph_adjacent_address-NotNearer blocks cursor up =
    let visited = blocks-Visited up cursor blocks none in
    (
      each_block blocks visited.covers,
      elim visited.origin [
        | inl same ↦ inl same
        | inr found ↦
            inr
              (found.0, found.1, found.2, subst (ValidBest up cursor) found.1 (visited.is_valid tt))
      ],
    )
