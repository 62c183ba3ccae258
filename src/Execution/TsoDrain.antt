-- ===== src/Execution/TsoDrain.antt =====
-- What is buffered under TSO reaches the storage when all threads of a run have completed.
use weak_memory_models_mock.Base.{
  ℕ, suc, ◌<◌, ◌≡◌, refl, Bool, true, false, [], ok, All-set, All-get_elem?, length-set, length,
  get_elem?-some, total, total-set, total-zero, arith,
}
use weak_memory_models_mock.Storage.Tso.Buffer.{Buffer, InRange}
use weak_memory_models_mock.Storage.Tso.{Tso, UpdateManager, internal_update}
use weak_memory_models_mock.Storage.Tso
use weak_memory_models_mock.Storage.Tso.Progress.{Covers, IsEmpty, Updates, internal_update_lem}
use weak_memory_models_mock.Execution.Threads.{all_threads_completed}
use weak_memory_models_mock.Execution.Random.{Draws, RandomExecutor, execute_all}
use weak_memory_models_mock.Storage.Tso.Flush.{IsValid}
use weak_memory_models_mock.Execution.Tso.{tso-Behaves}
use weak_memory_models_mock.Execution.Drain.{Drains, execute_all-Drains}

-- The stores that are buffered.
abbrev pub pending : {M : Type 0} → M × Tso → ℕ
pending x = total (λ (b : Buffer). length b) x.1.thread_buffers

IsEmpty-pending :
    {M : Type 0} (m : M) (s : Tso)
    → ((t : ℕ) → t < length s.thread_buffers → IsEmpty s t)
    → pending (m, s) ≡ 0
IsEmpty-pending m s h =
    total-zero (λ (b : Buffer). length b) s.thread_buffers
      (λ t b e.
        let e' = h t (get_elem?-some s.thread_buffers t e) in let q : b ≡ [] = cc in rw q refl)

Updates-Drained :
    {M : Type 0} (m m' : M) (s : Tso)
    → IsValid s
    → (r : Bool × Tso) → Updates s r
    → IsValid r.1
      × (r.0 ≡ true → suc (pending (m', r.1)) ≡ pending (m, s))
      × (r.0 ≡ false → (pending (m, s) ≡ 0) × (pending (m', r.1) ≡ 0))
Updates-Drained m m' s v (false, s') (same, empty) =
    let none_left = IsEmpty-pending m s empty in
    (rw same v, (λ e. absurd (cc)), λ e. (none_left, rw same none_left))
Updates-Drained m m' s v (true, s') (t, i, b, here, q) =
    let range = All-get_elem? (InRange (length s.storage)) s.thread_buffers t v here in
    let sum = total-set (λ (b : Buffer). length b) s.thread_buffers t b here in
    let size = length-set s.storage i.address i.value in
    (
      rw q (rw size (All-set (InRange (length s.storage)) s.thread_buffers t b range.1 v)),
      (λ e. rw q (omega (arith, sum))),
      λ e. absurd (cc),
    )

module _ {M : Type 0} (u : UpdateManager M) (covers : (m : M) (s : Tso) → Covers u m s) where
  tso-Drains : Drains (Tso.manager u) (λ (x : M × Tso). IsValid x.1)
  tso-Drains = record {
    pending = pending;
    update = λ x v.
        let (r, m', s', e, w) = internal_update_lem u x.0 x.1 v (covers x.0 x.1) in
        rw e (Updates-Drained x.0 m' x.1 v (r, s') w);
  }

  -- Once all threads of a run over the TSO memory have completed, with an update manager that offers
  -- each thread once, in a state whose buffered stores are all to addresses that exist, the loop of
  -- `main` ends within a round for each buffered store and one more, without a fault. Nothing is
  -- buffered then and the threads are unchanged.
  pub execute_all-IsDrained :
      (draws : Draws) (x : RandomExecutor draws (Tso.manager u))
      → all_threads_completed x.thread_manager ≡ true
      → IsValid x.memory.1
      → (x' : RandomExecutor draws (Tso.manager u)) × (execute_all draws
            (Tso.manager u)
            (suc (pending x.memory))
            x
          ≡ ok (true, x'))
        × (pending x'.memory ≡ 0)
        × (x'.thread_manager ≡ x.thread_manager)
  unfolding tso-Drains
  execute_all-IsDrained draws x e valid =
      let n = length x.memory.1.thread_buffers in
      execute_all-Drains (Tso.manager u) n (λ (x : M × Tso). length x.1.thread_buffers ≡ n)
        (λ (x : M × Tso). IsValid x.1) (tso-Behaves u covers n) tso-Drains draws x e valid
