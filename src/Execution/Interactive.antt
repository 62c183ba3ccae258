-- ===== src/Execution/Interactive.antt =====
-- `class InteractiveExecutor` of src/Execution/Executor.h and src/Execution/src/Executor.cpp.
use weak_memory_models_mock.Base.{
  ℕ, zero, suc, Bool, true, false, ◌&&◌, ◌||◌, Option, none, some, List, [], ◌∷◌, Result, ok, err,
  Fault, ◌>>=◌, ltb, ◌==◌, if◌then◌else◌, indices,
}
use weak_memory_models_mock.Program.{Program, Instruction}
use weak_memory_models_mock.Storage.Manager.{StorageManager}
use weak_memory_models_mock.Execution.Threads.{
  ThreadManager, evaluate_thread, evaluate_thread_local_instructions,
  get_current_instruction_for_thread, size,
}
use weak_memory_models_mock.Execution.Threads

-- `std::cin`, which the update managers read too, so that it is a part of the state `S` of the memory:
-- a character, or none where the read fails; whether a read of a number has come to the end, and the
-- number that is then in the variable; whether such a read fails before the end, since no number stands
-- there or the stream has failed before; and a bound on the reads that can succeed.
pub record Input (S : Type 0) : Type 0 where
  pub read_operation : S → Option ℕ × S
  pub read_thread_id : S → Bool × ℕ × S
  pub fails : S → Bool
  pub left : S → ℕ

-- What a character asks for: a thread or an update, in the order in which they are tried.
abbrev pub chosen : ℕ → Option Bool
chosen c =
    if (c == b'T') || (c == b't')
    then some true
    else if (c == b'M') || (c == b'm')
    then some false
    else none

module _ {S : Type 0} (manager : StorageManager S) (input : Input S) (fuel : ℕ) where
  pub record InteractiveExecutor : Type 0 where
    pub thread_manager : ThreadManager
    pub memory : S

  abbrev pub create : List Program → S → ℕ → InteractiveExecutor
  create programs memory thread_local_storage_size = record {
    thread_manager = Threads.create programs thread_local_storage_size;
    memory = memory;
  }

  abbrev pub is_none : Option Instruction → Bool
  is_none none = true
  is_none (some i) = false

  -- The first loop of `executeThread`, and whether all threads have finished.
  unfoldable pub evaluate_local : List ℕ → InteractiveExecutor → Result (Bool × InteractiveExecutor)
  evaluate_local [] x = ok (true, x)
  evaluate_local (t ∷ rest) x = do
    r ← evaluate_thread_local_instructions manager fuel x.thread_manager t x.memory
    instruction ← get_current_instruction_for_thread r.0 t
    others ← evaluate_local rest (record { thread_manager = r.0; memory = r.1 })
    ok (is_none instruction && others.0, others.1)

  -- What follows a thread's instruction that was evaluated.
  abbrev pub after_thread : ℕ → ThreadManager × S → Result (Bool × InteractiveExecutor)
  after_thread t r = evaluate_thread_local_instructions manager fuel r.0 t r.1 >>= λ r'.
      ok (true, record { thread_manager = r'.0; memory = r'.1 })

  -- The loop that asks for a thread.
  unfoldable pub ask_thread : ℕ → InteractiveExecutor → Result (Bool × InteractiveExecutor)
  ask_thread zero x = err Fault.out_of_fuel
  ask_thread (suc rounds) x =
      let read = input.read_thread_id x.memory in
      let x' = record x { memory = read.2 } in
      let again = ask_thread rounds x' in
      let evaluated = evaluate_thread manager x'.thread_manager read.1 x'.memory >>= λ r.
      let next = ask_thread rounds (record { thread_manager = r.1; memory = r.2 }) in
      if r.0 then after_thread read.1 (r.1, r.2) else next in
      if read.0
      then ok (false, x')
      else if ltb read.1 (size x'.thread_manager)
      then evaluated
      else again

  unfoldable pub execute_thread : InteractiveExecutor → Result (Bool × InteractiveExecutor)
  execute_thread x = evaluate_local (indices 0 (size x.thread_manager)) x >>= λ r.
      if r.0 then ok (false, r.1) else ask_thread (suc (input.left r.1.memory)) r.1

  unfoldable pub execute_internal_memory_update :
      InteractiveExecutor → Result (Bool × InteractiveExecutor)
  execute_internal_memory_update x =
      manager.internal_update x.memory >>= λ r. ok (r.0, record x { memory = r.1 })

  -- `a() || b()`
  abbrev pub or_else :
      (InteractiveExecutor → Result (Bool × InteractiveExecutor))
      → (InteractiveExecutor → Result (Bool × InteractiveExecutor))
      → InteractiveExecutor
      → Result (Bool × InteractiveExecutor)
  or_else first second x = first x >>= λ r. if r.0 then ok (true, r.1) else second r.1

  abbrev pub execute_chosen : Bool → InteractiveExecutor → Result (Bool × InteractiveExecutor)
  execute_chosen true x = or_else execute_thread execute_internal_memory_update x
  execute_chosen false x = or_else execute_internal_memory_update execute_thread x

  -- The loop of `execute`.
  unfoldable pub ask_operation : ℕ → InteractiveExecutor → Result (Bool × InteractiveExecutor)
  ask_operation zero x = err Fault.out_of_fuel
  ask_operation (suc rounds) x =
      let read = input.read_operation x.memory in
      let x' = record x { memory = read.1 } in
      let again = ask_operation rounds x' in
      elim read.0 [
        | none ↦ ok (false, x')
        | some c ↦ elim (chosen c) [ none ↦ again | some first ↦ execute_chosen first x' ]
      ]

  -- A round for each read that can succeed, and one more.
  unfoldable pub execute : InteractiveExecutor → Result (Bool × InteractiveExecutor)
  execute x = ask_operation (suc (input.left x.memory)) x
