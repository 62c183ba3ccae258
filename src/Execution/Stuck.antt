-- ===== src/Execution/Stuck.antt =====
-- The loop of `executeThread` of the interactive executor, once `std::cin` has failed.
use weak_memory_models_mock.Base.{
  ℕ, zero, suc, ◌≡◌, refl, ◌⊎◌, inl, inr, true, false, none, some, err, Fault, length, ltb,
  get_elem?, get_elem?-lt, set-get_elem?, Bool-cases, arith,
}
use weak_memory_models_mock.Storage.Manager.{StorageManager}
use weak_memory_models_mock.Execution.Thread.{Thread, is_finished, evaluate_instruction}
use weak_memory_models_mock.Execution.Threads.{ThreadManager, evaluate_thread}
use weak_memory_models_mock.Execution.Interactive.{Input, InteractiveExecutor, ask_thread}

-- There is no such thread, or it has finished.
abbrev pub CannotRun : ThreadManager → ℕ → Type 0
CannotRun threads t =
    (get_elem? threads t ≡ none)
    ⊎ ((th : Thread) × (get_elem? threads t ≡ some th) × (is_finished th ≡ true))

module _ {S : Type 0} (manager : StorageManager S) (input : Input S) (fuel : ℕ) where
  -- Where a read takes nothing from the input and is not at its end, as every read is once the stream
  -- has failed before its end, and leaves the number of a thread that does not exist or has finished in the variable,
  -- the loop asks again and again: it has not ended after any number of rounds.
  pub ask_thread-Spins :
      (rounds : ℕ) (x : InteractiveExecutor manager input fuel) (t : ℕ)
      → input.read_thread_id x.memory ≡ (false, t, x.memory)
      → CannotRun x.thread_manager t
      → ask_thread manager input fuel rounds x ≡ err Fault.out_of_fuel
  unfolding ask_thread evaluate_thread evaluate_instruction
  ask_thread-Spins zero x t stuck idle = refl
  ask_thread-Spins (suc rounds) x t stuck idle =
      let again = ask_thread-Spins rounds x t stuck idle in
      elim (Bool-cases (ltb t (length x.thread_manager))) [
        | inr e ↦ rw (stuck, e) again
        | inl e ↦ elim idle [
          | inl missing ↦
              let (th, here) = get_elem?-lt x.thread_manager t (ground (arith, e)) in absurd (cc)
          | inr (th, here, finished) ↦
              rw (stuck, e, here, finished, set-get_elem? x.thread_manager t here) again
        ]
      ]
