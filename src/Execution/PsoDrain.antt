-- ===== src/Execution/PsoDrain.antt =====
-- What is buffered under PSO reaches the storage when all threads of a run have completed.
use weak_memory_models_mock.Base.{
  ℕ, suc, ◌<◌, ◌≡◌, refl, Bool, true, false, [], length, get_elem?-some, set, total, total-set,
  total-zero, arith, ok, Shuffle,
}
use weak_memory_models_mock.Storage.Pso.Buffers.{ThreadBuffer, AddressBuffer}
use weak_memory_models_mock.Storage.Pso.{Pso}
use weak_memory_models_mock.Storage.Pso.Flush.{IsValid}
use weak_memory_models_mock.Storage.Pso.Updates.{Random}
use weak_memory_models_mock.Storage.Pso.Progress.{IsEmpty, Updates, Moved}
use weak_memory_models_mock.Execution.Threads.{all_threads_completed}
use weak_memory_models_mock.Execution.Random.{Draws, RandomExecutor, execute_all}
use weak_memory_models_mock.Execution.PsoCalls.{wide}
use weak_memory_models_mock.Execution.Pso.{
  IsHeld, pso_manager, Updated, internal_update-Updated, pso-Behaves,
}
use weak_memory_models_mock.Execution.Drain.{Drains, execute_all-Drains}

-- The stores that are buffered, of a thread and of all threads.
abbrev of_thread : ThreadBuffer → ℕ
of_thread tb = total (λ (b : AddressBuffer). length b) tb

abbrev pub pending : {M : Type 0} → M × Pso → ℕ
pending x = total of_thread x.1.thread_buffers

Moved-pending :
    {M : Type 0} (m m' : M) (s s' : Pso) → Moved s s' → suc (pending (m', s')) ≡ pending (m, s)
Moved-pending m m' s s' (t, a, tb, x, b, here, e, q) =
    let row = total-set (λ (b : AddressBuffer). length b) tb a b e in
    let sum = total-set of_thread s.thread_buffers t (set tb a b) here in
    rw q (omega (arith, row, sum))

IsEmpty-pending :
    {M : Type 0} (m : M) (s : Pso)
    → IsValid s
    → ((t a : ℕ) → t < length s.thread_buffers → a < length s.storage → IsEmpty s (t, a))
    → pending (m, s) ≡ 0
IsEmpty-pending m s v h = total-zero of_thread s.thread_buffers (λ t tb e.
    total-zero (λ (b : AddressBuffer). length b) tb
      (λ a b f.
        let size = wide s t v e in
        let below_t = get_elem?-some s.thread_buffers t e in
        let below_a = get_elem?-some tb a f in
        let f' = h t a below_t (omega (arith, size, below_a)) tb e in
        let q : b ≡ [] = cc in rw q refl))

module _ (sh : Shuffle) where
  pso-Drains : (n : ℕ) → Drains (pso_manager sh) (IsHeld n)
  unfolding Updated
  pso-Drains n = record {
    pending = pending;
    update = λ x h.
        let (r, e, d) = internal_update-Updated sh n x h in
        let c = counted x h r d.1 in rw e (d.0, c.0, c.1);
  }
    where
      counted :
          (x : Random sh.Generator × Pso)
          → IsHeld n x
          → (r : Bool × Random sh.Generator × Pso) → Updates x.1 (r.0, r.2)
          → (r.0 ≡ true → suc (pending (r.1, r.2)) ≡ pending x)
            × (r.0 ≡ false → (pending x ≡ 0) × (pending (r.1, r.2) ≡ 0))
      counted x h (true, m', s') w = ((λ e. Moved-pending x.0 m' x.1 s' w), λ e. absurd (cc))
      counted x h (false, m', s') (same, empty) =
          let none_left = IsEmpty-pending x.0 x.1 h.valid empty in
          ((λ e. absurd (cc)), λ e. (none_left, rw same none_left))

  -- Once all threads of a run over the PSO memory have completed, with the random update manager and
  -- in a valid state whose earlier pairs name buffers, the loop of `main` ends within a round for each
  -- buffered store and one more, without a fault. Nothing is buffered then and the threads are
  -- unchanged.
  pub execute_all-IsFlushed :
      (n : ℕ) (draws : Draws) (x : RandomExecutor draws (pso_manager sh))
      → all_threads_completed x.thread_manager ≡ true
      → IsHeld n x.memory
      → (x' : RandomExecutor draws (pso_manager sh)) × (execute_all draws
            (pso_manager sh)
            (suc (pending x.memory))
            x
          ≡ ok (true, x'))
        × (pending x'.memory ≡ 0)
        × (x'.thread_manager ≡ x.thread_manager)
  unfolding pso-Drains
  execute_all-IsFlushed n draws x e held =
      execute_all-Drains (pso_manager sh) n (IsHeld n) (IsHeld n) (pso-Behaves sh n) (pso-Drains n)
        draws x e held
