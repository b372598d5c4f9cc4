-- ===== src/Graph.antt =====
-- src/app/DisassemblyGraphLayout.cpp: `disassembly_graph_adjacent_address`. A block is the list of the
-- addresses of its instructions.
pub mod Nearest
use mydbg.Base.{
  ℕ, zero, suc, ◌+◌, ◌-◌, ◌*◌, ◌/◌, ◌%◌, ◌^◌, ◌≤◌, ◌<◌, ◌≡◌, refl, sym, ap, ◌∙◌, ◌≢◌, ◌↔◌, ◌⊎◌, inl,
  inr, Bool, true, false, not, ◌&&◌, ◌||◌, Option, none, some, List, [], ◌∷◌, ◌++◌, map, append-nil,
  append_assoc, arith, leb, ltb, ◌==◌, if◌then◌else◌, leb→le, ltb→lt, lt→ltb, le→not-ltb, ==_iff,
  ==_refl, Bool-cases, Option-cases, List-cases, and-eq-true, and_then, length, get_elem?, get_or,
  set, take, drop, replicate, take_while, drop_while, all, find?, tabulate, All, length-append,
  length-drop, length-set, length-drop_while-le, length-tabulate, Stops, take_while-append,
  drop_while-append, all-append, all-take_while, take_while-all, drop_while-all,
}
use mydbg.Base.Bytes.{
  Bytes, codes, is_space, is_digit, is_alpha, is_xdigit, is_word, hex_value, equal, equal_iff,
  starts_with, starts_with-append, drop-append,
}

abbrev pub Blocks : Type 0
Blocks = List (List ℕ)

-- The condition of the loop, for the address of a row and the best one so far
unfoldable pub improves : (cursor : ℕ) → (up down : Bool) → (next : Option ℕ) → (address : ℕ) → Bool
improves cursor up down none address = (up && ltb address cursor) || (down && ltb cursor address)
improves cursor up down (some best) address =
    (up && ltb address cursor && ltb best address)
    || (down && ltb cursor address && ltb address best)

unfoldable pub visit_rows : (cursor : ℕ) → (up down : Bool) → Option ℕ → (rows : List ℕ) → Option ℕ
unfolding improves
visit_rows cursor up down next [] = next
visit_rows cursor up down next (address ∷ rows) =
    visit_rows cursor up down (if improves cursor up down next address then some address else next)
      rows

unfoldable pub visit_blocks : (cursor : ℕ) → (up down : Bool) → Option ℕ → Blocks → Option ℕ
unfolding visit_rows
visit_blocks cursor up down next [] = next
visit_blocks cursor up down next (rows ∷ blocks) =
    visit_blocks cursor up down (visit_rows cursor up down next rows) blocks

unfoldable pub disassembly_graph_adjacent_address :
    Blocks → (cursor : ℕ) → (up down : Bool) → Option ℕ
unfolding visit_blocks
disassembly_graph_adjacent_address blocks cursor up down = visit_blocks cursor up down none blocks
