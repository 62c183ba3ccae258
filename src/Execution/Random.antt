-- ===== src/Execution/Random.antt =====
-- `class RandomExecutor` of src/Execution/Executor.h and src/Execution/src/Executor.cpp.
use weak_memory_models_mock.Base.{
  ℕ, zero, suc, Bool, true, false, List, [], ◌∷◌, Result, ok, err, Fault, ◌>>=◌, if◌then◌else◌,
  Shuffle,
}
use weak_memory_models_mock.Program.{Program}
use weak_memory_models_mock.Storage.Manager.{StorageManager}
use weak_memory_models_mock.Execution.Threads.{ThreadManager, unfinished_threads, evaluate_thread}
use weak_memory_models_mock.Execution.Threads

-- The random generator, with what is drawn from it: a permutation, and 0 or 1.
pub record Draws : Type 1 where
  pub shuffle : Shuffle
  pub draw_bit : shuffle.Generator → Bool × shuffle.Generator

module _ (draws : Draws) {S : Type 0} (manager : StorageManager S) where
  open draws use {shuffle, draw_bit}

  -- `m_randomGenerator`, `m_threadManager` and the state of `m_storageManager`
  pub record RandomExecutor : Type 0 where
    pub random_generator : shuffle.Generator
    pub thread_manager : ThreadManager
    pub memory : S

  -- The loop of `executeThread` over the threads that are left.
  unfoldable pub try_threads : List ℕ → RandomExecutor → Result (Bool × RandomExecutor)
  try_threads [] x = err Fault.all_blocked
  try_threads (t ∷ rest) x = evaluate_thread manager x.thread_manager t x.memory >>= λ r.
      let x' = record x { thread_manager = r.1; memory = r.2 } in
      let others = try_threads rest x' in if r.0 then ok (true, x') else others

  -- `executeThread` once the list of unfinished threads is there.
  unfoldable pub execute_one_of : List ℕ → RandomExecutor → Result (Bool × RandomExecutor)
  execute_one_of [] x = ok (false, x)
  execute_one_of (t ∷ rest) x =
      let (order, g) = shuffle.shuffle ℕ x.random_generator (t ∷ rest) in
      try_threads order (record x { random_generator = g })

  unfoldable pub execute_thread : RandomExecutor → Result (Bool × RandomExecutor)
  execute_thread x = execute_one_of (unfinished_threads x.thread_manager) x

  unfoldable pub execute_internal_memory_update : RandomExecutor → Result (Bool × RandomExecutor)
  execute_internal_memory_update x =
      manager.internal_update x.memory >>= λ r. ok (r.0, record x { memory = r.1 })

  -- `a() || b()`
  abbrev pub or_else :
      (RandomExecutor → Result (Bool × RandomExecutor))
      → (RandomExecutor → Result (Bool × RandomExecutor))
      → RandomExecutor
      → Result (Bool × RandomExecutor)
  or_else first second x = first x >>= λ r. if r.0 then ok (true, r.1) else second r.1

  unfoldable pub execute : RandomExecutor → Result (Bool × RandomExecutor)
  execute x =
      let (thread_first, g) = draw_bit x.random_generator in
      let x' = record x { random_generator = g } in
      if thread_first
      then or_else execute_thread execute_internal_memory_update x'
      else or_else execute_internal_memory_update execute_thread x'

  -- The constructor; `m_randomGenerator` is seeded.
  unfoldable pub create : shuffle.Generator → List Program → S → ℕ → RandomExecutor
  create seed programs memory thread_local_storage_size = record {
    random_generator = seed;
    thread_manager = Threads.create programs thread_local_storage_size;
    memory = memory;
  }

  -- `while (executor->execute()) {}` of `main`, for so many rounds at most, and whether it has ended.
  unfoldable pub execute_all : ℕ → RandomExecutor → Result (Bool × RandomExecutor)
  execute_all zero x = ok (false, x)
  execute_all (suc rounds) x =
      execute x >>= λ r. let rest = execute_all rounds r.1 in if r.0 then rest else ok (true, r.1)
