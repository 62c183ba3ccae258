-- ===== src/Execution/Threads.antt =====
-- src/Execution/ThreadManager.h and src/Execution/src/ThreadManager.cpp: the threads of a run.
use weak_memory_models_mock.Base.{
  ℕ, zero, suc, Bool, true, false, none, some, err, Fault, length, not, ◌&&◌, List, [], ◌∷◌, map,
  Option, Result, ok, ◌>>=◌, at, set, if◌then◌else◌,
}
use weak_memory_models_mock.Program.{Program, Instruction}
use weak_memory_models_mock.Storage.Memory.{Storage}
use weak_memory_models_mock.Storage.Manager.{StorageManager}
use weak_memory_models_mock.Execution.Thread.{
  Thread, is_finished, evaluate_instruction, get_current_instruction,
}
use weak_memory_models_mock.Execution.Thread

-- `m_threads`; the storage manager is an argument of the operations.
abbrev pub ThreadManager : Type 0
ThreadManager = List Thread

-- The loop of the constructor, from the thread with number `id` on.
unfoldable pub create_from : ℕ → List Program → ℕ → ThreadManager
create_from id [] size = []
create_from id (p ∷ programs) size = Thread.create p id size ∷ create_from (suc id) programs size

unfoldable pub create : List Program → ℕ → ThreadManager
unfolding create_from
create programs size = create_from 0 programs size

unfoldable pub evaluate_thread :
    {S : Type 0} → StorageManager S → ThreadManager → ℕ → S → Result (Bool × ThreadManager × S)
evaluate_thread manager threads t s = do
  thread ← at threads t
  r ← evaluate_instruction manager thread s
  ok (r.0, set threads t r.1, r.2)

abbrev pub all_threads_completed : ThreadManager → Bool
all_threads_completed [] = true
all_threads_completed (th ∷ threads) = is_finished th && all_threads_completed threads

abbrev pub unfinished_threads : ThreadManager → List ℕ
unfinished_threads [] = []
unfinished_threads (th ∷ threads) =
    if not (is_finished th) then th.id ∷ unfinished_threads threads else unfinished_threads threads

abbrev pub get_thread_local_storages : ThreadManager → List Storage
get_thread_local_storages threads = map (λ (th : Thread). th.local_storage) threads

abbrev pub get_current_instruction_for_thread : ThreadManager → ℕ → Result (Option Instruction)
get_current_instruction_for_thread threads t =
    at threads t >>= λ th. ok (get_current_instruction th)

-- The `switch` of `evaluateThreadLocalInstructions`: true where it evaluates the instruction.
abbrev pub is_local : Instruction → Bool
is_local (Instruction.store_const_in_register r value) = true
is_local (Instruction.store_expr_in_register r left operation right) = true
is_local (Instruction.goto r label) = true
is_local (Instruction.load mode address r) = false
is_local (Instruction.store mode address r) = false
is_local (Instruction.compare_and_swap mode address expected new) = false
is_local (Instruction.fetch_and_increment mode address r) = false
is_local (Instruction.fence mode) = false

abbrev pub next_is_local : Option Instruction → Bool
next_is_local none = false
next_is_local (some i) = is_local i

-- The loop, on so many rounds at most.
unfoldable pub evaluate_thread_local_instructions :
    {S : Type 0} → StorageManager S → ℕ → ThreadManager → ℕ → S → Result (ThreadManager × S)
evaluate_thread_local_instructions manager zero threads t s = err Fault.out_of_fuel
evaluate_thread_local_instructions manager (suc fuel) threads t s = at threads t >>= λ thread.
    let rest = evaluate_thread manager threads t s >>= λ r.
    evaluate_thread_local_instructions manager fuel r.1 t r.2 in
    if next_is_local (get_current_instruction thread) then rest else ok (threads, s)

abbrev pub size : ThreadManager → ℕ
size threads = length threads

abbrev pub get_thread_local_storage : ThreadManager → ℕ → Result Storage
get_thread_local_storage threads t = at threads t >>= λ th. ok th.local_storage
