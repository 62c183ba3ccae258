-- ===== src/Execution/Thread.antt =====
-- src/Execution/Thread.h and src/Execution/src/Thread.cpp: one thread, over the interface of the
-- storage managers.
use weak_memory_models_mock.Base.{
  ℕ, suc, Bool, true, false, Option, ℤ, pos, ◌==ℤ◌, ◌==◌, to_size, add32, sub32, mul32, div32,
  Result, ok, Fault, ◌>>=◌, or_throw, if◌then◌else◌,
}
use weak_memory_models_mock.Program.{
  Program, Instruction, BinaryOperation, MemoryAccessMode, get_instruction, get_label_mapping,
}
use weak_memory_models_mock.Program
use weak_memory_models_mock.Storage.AccessMode.{AccessMode}
use weak_memory_models_mock.Storage.Memory.{Storage}
use weak_memory_models_mock.Storage.Memory
use weak_memory_models_mock.Storage.Manager.{StorageManager}

-- The storage manager is shared by all threads, and its state is an argument of the operations.
pub record Thread : Type 0 where
  pub program : Program
  pub local_storage : Storage
  pub current_instruction : ℕ
  pub id : ℕ

unfoldable pub create : Program → ℕ → ℕ → Thread
create program id local_storage_size = record {
  program = program;
  local_storage = Memory.create local_storage_size;
  current_instruction = 0;
  id = id;
}

abbrev pub is_finished : Thread → Bool
is_finished th = th.current_instruction == Program.size th.program

abbrev pub get_current_instruction : Thread → Option Instruction
get_current_instruction th = get_instruction th.program th.current_instruction

-- `static_cast<storage::MemoryAccessMode>`: the two enumerations have the same order.
abbrev pub to_storage : MemoryAccessMode → AccessMode
to_storage MemoryAccessMode.sequential_consistency = AccessMode.sequential_consistency
to_storage MemoryAccessMode.release = AccessMode.release
to_storage MemoryAccessMode.acquire = AccessMode.acquire
to_storage MemoryAccessMode.release_acquire = AccessMode.release_acquire
to_storage MemoryAccessMode.relaxed = AccessMode.relaxed

abbrev pub apply_binary_operation : BinaryOperation → ℤ → ℤ → Result ℤ
apply_binary_operation BinaryOperation.addition lhs rhs = add32 lhs rhs
apply_binary_operation BinaryOperation.subtraction lhs rhs = sub32 lhs rhs
apply_binary_operation BinaryOperation.multiplication lhs rhs = mul32 lhs rhs
apply_binary_operation BinaryOperation.division lhs rhs = div32 lhs rhs

module _ {S : Type 0} (manager : StorageManager S) where
  -- The next position, the registers and the memory after the `switch`. Where the source leaves one
  -- of them alone, it is passed on.
  unfoldable pub apply : Thread → Instruction → S → Result (ℕ × Storage × S)
  apply th (Instruction.store_const_in_register r value) s = do
    registers ← Memory.store th.local_storage r value
    ok (suc th.current_instruction, registers, s)
  apply th (Instruction.store_expr_in_register r left operation right) s = do
    lhs ← Memory.load th.local_storage left
    rhs ← Memory.load th.local_storage right
    value ← apply_binary_operation operation lhs rhs
    registers ← Memory.store th.local_storage r value
    ok (suc th.current_instruction, registers, s)
  apply th (Instruction.goto r label) s = do
    condition ← Memory.load th.local_storage r
    next ←
        (if condition ==ℤ pos 0
          then ok (suc th.current_instruction)
          else get_label_mapping th.program label)
    ok (next, th.local_storage, s)
  apply th (Instruction.load mode address_register r) s = do
    address ← Memory.load th.local_storage address_register
    read ← manager.load s th.id (to_size address) (to_storage mode)
    registers ← Memory.store th.local_storage r read.0
    ok (suc th.current_instruction, registers, read.1)
  apply th (Instruction.store mode address_register r) s = do
    address ← Memory.load th.local_storage address_register
    value ← Memory.load th.local_storage r
    s' ← manager.store s th.id (to_size address) value (to_storage mode)
    ok (suc th.current_instruction, th.local_storage, s')
  apply th (Instruction.compare_and_swap mode address_register r r') s = do
    address ← Memory.load th.local_storage address_register
    expected ← Memory.load th.local_storage r
    new ← Memory.load th.local_storage r'
    s' ← manager.compare_and_swap s th.id (to_size address) expected new (to_storage mode)
    ok (suc th.current_instruction, th.local_storage, s')
  apply th (Instruction.fetch_and_increment mode address_register r) s = do
    address ← Memory.load th.local_storage address_register
    increment ← Memory.load th.local_storage r
    s' ← manager.fetch_and_increment s th.id (to_size address) increment (to_storage mode)
    ok (suc th.current_instruction, th.local_storage, s')
  apply th (Instruction.fence mode) s = do
    s' ← manager.fence s th.id (to_storage mode)
    ok (suc th.current_instruction, th.local_storage, s')

  -- A null pointer, where there is no instruction, is read through.
  unfoldable pub evaluate_next : Thread → S → Result (Bool × Thread × S)
  evaluate_next th s = do
    instruction ← or_throw (get_current_instruction th) Fault.bad_index
    r ← apply th instruction s
    ok (true, record th { local_storage = r.1; current_instruction = r.0 }, r.2)

  unfoldable pub evaluate_instruction : Thread → S → Result (Bool × Thread × S)
  unfolding evaluate_next
  evaluate_instruction th s = if is_finished th then ok (false, th, s) else evaluate_next th s
