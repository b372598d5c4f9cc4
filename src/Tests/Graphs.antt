-- ===== src/Tests/Graphs.antt =====
-- Runs of the disassembly graph at concrete inputs.
use mydbg.Base.{All, ℕ, ◌≡◌, refl, ◌⊎◌, true, false, none, some, [], ◌∷◌}
use mydbg.Graph.{Blocks, disassembly_graph_adjacent_address}
use mydbg.Graph.Nearest.{
  OnSide, NotNearer, HasAddress, disassembly_graph_adjacent_address-NotNearer,
}

abbrev two_blocks : Blocks
two_blocks = (16 ∷ 20 ∷ []) ∷ (8 ∷ 12 ∷ []) ∷ []

disassembly_graph_adjacent_address-NotNearer_example :
    All
      (All (NotNearer true 16 (disassembly_graph_adjacent_address two_blocks 16 true false)))
      two_blocks
    × ((disassembly_graph_adjacent_address two_blocks 16 true false ≡ none)
        ⊎ ((best : ℕ) × (disassembly_graph_adjacent_address two_blocks 16 true false ≡ some best)
            × HasAddress two_blocks best
            × OnSide true 16 best))
disassembly_graph_adjacent_address-NotNearer_example =
    disassembly_graph_adjacent_address-NotNearer two_blocks 16 true

adjacent_run : disassembly_graph_adjacent_address two_blocks 16 true false ≡ some 12
unfolding disassembly_graph_adjacent_address
adjacent_run = refl
