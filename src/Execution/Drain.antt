-- ===== src/Execution/Drain.antt =====
-- A run whose threads have all completed: what is left is the memory.
use weak_memory_models_mock.Base.{
  ℕ, zero, suc, ◌≡◌, refl, ap, ◌∙◌, Bool, true, false, ok, err, Result, Fault, EndsIn, EndsIn-map,
  >>=-EndsIn, Bool-cases, inl, inr, arith, if◌then◌else◌,
}
use weak_memory_models_mock.Storage.Manager.{StorageManager}
use weak_memory_models_mock.Execution.Threads.{all_threads_completed}
use weak_memory_models_mock.Execution.Random.{
  Draws, RandomExecutor, execute_thread, execute_internal_memory_update, execute, execute_all,
}
use weak_memory_models_mock.Execution.Steps.{Behaves}
use weak_memory_models_mock.Execution.Runs.{execute_thread-completed}

-- No fault is allowed.
abbrev Never : Fault → Type 0
Never fault = ⊥

-- What a manager has buffered: an internal update takes one store of it, and reports that nothing was
-- done only if there is none. It always succeeds.
pub record Drains {S : Type 0} (manager : StorageManager S) (Inv : S → Type 0) : Type 0 where
  pub pending : S → ℕ
  pub update :
      (s : S)
      → Inv s
      → EndsIn Never
          (λ (r : Bool × S).
            Inv r.1
            × (r.0 ≡ true → suc (pending r.1) ≡ pending s)
            × (r.0 ≡ false → (pending s ≡ 0) × (pending r.1 ≡ 0)))
          (manager.internal_update s)

module _ {S : Type 0} (manager : StorageManager S) (n : ℕ) (Held Inv : S → Type 0)
    (behaves : Behaves manager n Held) (drains : Drains manager Inv) (draws : Draws) where
  open drains use {pending}

  -- A step of such a run.
  abbrev Step : RandomExecutor draws manager → Bool × RandomExecutor draws manager → Type 0
  Step x r =
      Inv r.1.memory
      × (r.1.thread_manager ≡ x.thread_manager)
      × (r.0 ≡ true → suc (pending r.1.memory) ≡ pending x.memory)
      × (r.0 ≡ false → (pending x.memory ≡ 0) × (pending r.1.memory ≡ 0))

  update-Step :
      (x : RandomExecutor draws manager)
      → Inv x.memory
      → EndsIn Never (Step x) (execute_internal_memory_update draws manager x)
  unfolding execute_internal_memory_update
  update-Step x inv =
      >>=-EndsIn Never _ (Step x) (manager.internal_update x.memory) _ (drains.update x.memory inv)
        (λ r h. (h.0, refl, h.1, h.2))

  execute-Step :
      (x : RandomExecutor draws manager)
      → all_threads_completed x.thread_manager ≡ true
      → Inv x.memory
      → EndsIn Never (Step x) (execute draws manager x)
  unfolding execute
  execute-Step x e inv =
      let x' : RandomExecutor draws manager = record x {
        random_generator = (draws.draw_bit x.random_generator).1;
      } in
      let again = update-Step x' inv in
      elim (Bool-cases (draws.draw_bit x.random_generator).0) [
        | inl b ↦ rw (b, execute_thread-completed manager n Held behaves draws x' e) again
        | inr b ↦ rw b (
            >>=-EndsIn Never (Step x') (Step x) (execute_internal_memory_update draws manager x') _
              again (λ r h. after x r e h))
      ]
    where
      after :
          (x : RandomExecutor draws manager) (r : Bool × RandomExecutor draws manager)
          → all_threads_completed x.thread_manager ≡ true
          → Step x r
          → EndsIn Never (Step x) (if r.0 then ok (true, r.1) else execute_thread draws manager r.1)
      after x (true, x'') e h = h
      after x (false, x'') e h =
          rw
            (execute_thread-completed manager n Held behaves draws x''
              (ap all_threads_completed h.1 ∙ e))
            h

  abbrev Drained : RandomExecutor draws manager → Bool × RandomExecutor draws manager → Type 0
  Drained x r = (r.0 ≡ true) × (pending r.1.memory ≡ 0) × (r.1.thread_manager ≡ x.thread_manager)

  loop-Drains :
      (k : ℕ) (x : RandomExecutor draws manager)
      → all_threads_completed x.thread_manager ≡ true
      → Inv x.memory
      → pending x.memory ≡ k
      → EndsIn Never (Drained x) (execute_all draws manager (suc k) x)
  unfolding execute_all
  loop-Drains zero x e inv size =
      >>=-EndsIn Never (Step x) _ (execute draws manager x) _ (execute-Step x e inv)
        (λ r h. last r h)
    where
      last :
          (r : Bool × RandomExecutor draws manager)
          → Step x r
          → EndsIn Never (Drained x) (if r.0 then ok (false, r.1) else ok (true, r.1))
      last (true, x') h = let more = h.2 refl in absurd (omega (arith, more, size))
      last (false, x') h = (refl, (h.3 refl).1, h.1)
  loop-Drains (suc k) x e inv size =
      >>=-EndsIn Never (Step x) _ (execute draws manager x) _ (execute-Step x e inv)
        (λ r h. next r h (loop-Drains k r.1 (ap all_threads_completed h.1 ∙ e) h.0))
    where
      next :
          (r : Bool × RandomExecutor draws manager)
          → Step x r
          → (pending r.1.memory ≡ k
              → EndsIn Never (Drained r.1) (execute_all draws manager (suc k) r.1))
          → EndsIn Never
              (Drained x)
              (if r.0 then execute_all draws manager (suc k) r.1 else ok (true, r.1))
      next (true, x') h rest =
          let more = h.2 refl in
          EndsIn-map Never (Drained x') (Drained x) (execute_all draws manager (suc k) x')
            (λ r d. (d.0, d.1, d.2 ∙ h.1)) (rest (omega (arith, more, size)))
      next (false, x') h rest = (refl, (h.3 refl).1, h.1)

  succeeds :
      (x : RandomExecutor draws manager) (call : Result (Bool × RandomExecutor draws manager))
      → EndsIn Never (Drained x) call
      → (x' : RandomExecutor draws manager) × (call ≡ ok (true, x'))
        × (pending x'.memory ≡ 0)
        × (x'.thread_manager ≡ x.thread_manager)
  succeeds x (ok r) (e, empty, same) = (r.1, rw e refl, empty, same)
  succeeds x (err fault) h = absurd h

  -- From a run on whose threads have all completed, the loop of `main` ends within a round for each
  -- buffered store and one more, without a fault: then nothing is buffered, and the threads are
  -- unchanged.
  pub execute_all-Drains :
      (x : RandomExecutor draws manager)
      → all_threads_completed x.thread_manager ≡ true
      → Inv x.memory
      → (x' : RandomExecutor draws manager) × (execute_all draws manager (suc (pending x.memory)) x
          ≡ ok (true, x'))
        × (pending x'.memory ≡ 0)
        × (x'.thread_manager ≡ x.thread_manager)
  execute_all-Drains x e inv = succeeds x _ (loop-Drains (pending x.memory) x e inv refl)
