-- ===== src/Program.antt =====
-- src/Program/Instructions.h, src/Program/Program.h and src/Program/src/Program.cpp.
pub mod Names
pub mod Printer
pub mod Parser
pub mod Tokens
pub mod Parts
pub mod RoundTrip
pub mod Stream
pub mod Refusal
pub mod SourceText
pub mod Sources
mod Tests
use weak_memory_models_mock.Base.{
  ℕ, ◌≤◌, ◌≡◌, Option, none, some, ℤ, List, [], ◌∷◌, Result, Fault, or_throw, length, get_elem?,
  ◌==◌, if◌then◌else◌, All, Bool-cases, inl, inr,
}

-- `enum class MemoryAccessMode` of the namespace `program`
pub data MemoryAccessMode : Type 0 where
  sequential_consistency release acquire release_acquire relaxed : MemoryAccessMode

pub data BinaryOperation : Type 0 where
  addition subtraction multiplication division : BinaryOperation

-- `struct Instruction` with the structs that derive from it, one for each `InstructionAction`
pub data Instruction : Type 0 where
  store_const_in_register : (store_register : ℕ) → (value : ℤ) → Instruction
  store_expr_in_register :
      (store_register left_register : ℕ) → BinaryOperation → (right_register : ℕ) → Instruction
  goto : (condition_register label : ℕ) → Instruction
  load : MemoryAccessMode → (address_register result_register : ℕ) → Instruction
  store : MemoryAccessMode → (address_register value_register : ℕ) → Instruction
  compare_and_swap :
      MemoryAccessMode
      → (address_register expected_value_register new_value_register : ℕ) → Instruction
  fetch_and_increment : MemoryAccessMode → (address_register increment_register : ℕ) → Instruction
  fence : MemoryAccessMode → Instruction

-- `m_labelMapping` is a list of pairs of a label and a position.
pub record Program : Type 0 where
  pub program : List Instruction
  pub label_mapping : List (ℕ × ℕ)

abbrev pub size : Program → ℕ
size p = length p.program

-- `none` is the null pointer.
abbrev pub get_instruction : Program → ℕ → Option Instruction
get_instruction p i = get_elem? p.program i

abbrev pub find_label : List (ℕ × ℕ) → ℕ → Option ℕ
find_label [] label = none
find_label (entry ∷ rest) label = if entry.0 == label then some entry.1 else find_label rest label

abbrev pub get_label_mapping : Program → ℕ → Result ℕ
get_label_mapping p label = or_throw (find_label p.label_mapping label) Fault.out_of_range

-- Every label stands for a position in the program or for its end.
abbrev pub IsClosed : Program → Type 0
IsClosed p = All (λ (entry : ℕ × ℕ). entry.1 ≤ size p) p.label_mapping

pub find_label_lem :
    (n : ℕ) (ls : List (ℕ × ℕ)) (label : ℕ) {i : ℕ}
    → All (λ (entry : ℕ × ℕ). entry.1 ≤ n) ls
    → find_label ls label ≡ some i
    → i ≤ n
find_label_lem n [] label all e = absurd (cc)
find_label_lem n (entry ∷ rest) label {i} all e = elim (Bool-cases (entry.0 == label)) [
  | inl f ↦ let q = rw f at e in let q' : entry.1 ≡ i = cc in rw (← q') all.0
  | inr f ↦ find_label_lem n rest label all.1 (rw f at e)
]
