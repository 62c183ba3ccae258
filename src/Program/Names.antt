-- ===== src/Program/Names.antt =====
-- The names of the language: the constant maps of src/Program/Parser.h.
use weak_memory_models_mock.Base.{Bool, true, false, List, [], ◌∷◌, Bytes, codes}
use weak_memory_models_mock.Program.{
  MemoryAccessMode, BinaryOperation, sequential_consistency, release, acquire, release_acquire,
  relaxed, addition, subtraction, multiplication, division,
}

pub data Command : Type 0 where
  if_command load_command store_command compare_and_swap_command : Command
  fetch_and_increment_command fence_command other_command : Command

abbrev pub string_to_command : List (Bytes × Command)
string_to_command =
    (codes "if", Command.if_command)
    ∷ (codes "load", Command.load_command)
    ∷ (codes "store", Command.store_command)
    ∷ (codes "cas", Command.compare_and_swap_command)
    ∷ (codes "fai", Command.fetch_and_increment_command)
    ∷ (codes "fence", Command.fence_command)
    ∷ []

abbrev pub string_to_mode : List (Bytes × MemoryAccessMode)
string_to_mode =
    (codes "SEQ_CST", sequential_consistency)
    ∷ (codes "REL", release)
    ∷ (codes "ACQ", acquire)
    ∷ (codes "REL_ACQ", release_acquire)
    ∷ (codes "RLX", relaxed)
    ∷ []

abbrev pub char_to_bin_operation : List (Bytes × BinaryOperation)
char_to_bin_operation =
    (codes "+", addition)
    ∷ (codes "-", subtraction)
    ∷ (codes "*", multiplication)
    ∷ (codes "/", division)
    ∷ []

abbrev pub same_mode : MemoryAccessMode → MemoryAccessMode → Bool
same_mode sequential_consistency sequential_consistency = true
same_mode release release = true
same_mode acquire acquire = true
same_mode release_acquire release_acquire = true
same_mode relaxed relaxed = true
same_mode _ _ = false
