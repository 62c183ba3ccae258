-- ===== src/Execution/Pso.antt =====
-- The PSO manager with the random update manager as the memory of a run.
use weak_memory_models_mock.Base.{
  ap, ℕ, ◌<◌, ◌≡◌, refl, ◌∙◌, Bool, true, false, ℤ, ok, err, Result, ◌>>=◌, length, length-set, All,
  All-map, Result-cases, inl, inr, EndsIn, EndsIn-map, >>=-EndsIn, IsProper, arith, Shuffle,
}
use weak_memory_models_mock.Storage.Manager.{StorageManager}
use weak_memory_models_mock.Storage.Pso.{
  Pso, load, store, compare_and_swap, fetch_and_increment, fence, internal_update,
}
use weak_memory_models_mock.Storage.Pso
use weak_memory_models_mock.Storage.Pso.Flush.{IsValid, propagated}
use weak_memory_models_mock.Storage.Pso.Updates.{Random, random, random_rounds}
use weak_memory_models_mock.Storage.Pso.Progress.{InRange, IsEmpty, Updates}
use weak_memory_models_mock.Storage.Pso.Random.{pso_random_progress}
use weak_memory_models_mock.Execution.Steps.{Behaves}
use weak_memory_models_mock.Execution.Threads.{all_threads_completed}
use weak_memory_models_mock.Execution.Random.{Draws, RandomExecutor, execute}
use weak_memory_models_mock.Execution.Runs.{IsRun, execute-Stops}
use weak_memory_models_mock.Execution.PsoCalls.{
  Keeps, Keeps-refl, set_buffers, wide, load_ends, store_ends, compare_and_swap_ends,
  fetch_and_increment_ends, fence_ends,
}

-- A valid state for so many threads, and an update manager whose pairs name buffers of it.
pub record IsHeld {G : Type 0} (n : ℕ) (x : Random G × Pso) : Type 0 where
  pub valid : IsValid x.1
  pub threads : length x.1.thread_buffers ≡ n
  pub pairs : All (InRange x.1) x.0.pairs

InRange-Keeps :
    {G : Type 0} (n : ℕ) (m : Random G) (s s' : Pso)
    → IsHeld n (m, s)
    → Keeps s s'
    → IsHeld n (m, s')
InRange-Keeps n m s s' h k = record {
  valid = k.valid;
  threads = k.threads ∙ h.threads;
  pairs =
      All-map (InRange s) (InRange s') m.pairs
        (λ p fits. (omega (arith, fits.0, k.threads), omega (arith, fits.1, k.size))) h.pairs;
}

beside_lem :
    {G : Type 0} (n : ℕ) (m : Random G) (s : Pso) (r : Result Pso)
    → IsHeld n (m, s)
    → EndsIn IsProper (Keeps s) r
    → EndsIn IsProper (IsHeld n) (r >>= λ s'. ok (m, s'))
beside_lem n m s (ok s') h k = InRange-Keeps n m s s' h k
beside_lem n m s (err e) h k = k

Updates-Keeps : (s : Pso) (r : Bool × Pso) → IsValid s → Updates s r → Keeps s r.1
Updates-Keeps s (false, s') v (same, _) = rw same (Keeps-refl s v)
Updates-Keeps s (true, s') v (t, a, tb, x, b, here, e, q) = rw q (
    set_buffers s (propagated s t a tb x b) t _ v (length-set s.storage a x) refl
      (length-set tb a b ∙ wide s t v here))

module _ (sh : Shuffle) where
  abbrev pub pso_manager : StorageManager (Random sh.Generator × Pso)
  pso_manager = Pso.manager (random sh) random_rounds

  -- What an internal update gives.
  unfoldable pub Updated : ℕ → Random sh.Generator × Pso → Bool × Random sh.Generator × Pso → Type 0
  Updated n x r = IsHeld n (r.1, r.2) × Updates x.1 (r.0, r.2)

  pub internal_update-Updated :
      (n : ℕ) (x : Random sh.Generator × Pso)
      → IsHeld n x
      → (r : Bool × Random sh.Generator × Pso) × (internal_update
            (random sh)
            (random_rounds x.0 x.1)
            x.0
            x.1
          ≡ ok r)
        × Updated n x r
  unfolding Updated
  internal_update-Updated n x h =
      let (r, m', s', e, w, fits) = pso_random_progress sh x.0 x.1 h.valid h.pairs in
      let k = Updates-Keeps x.1 (r, s') h.valid w in
      (
        (r, m', s'),
        e,
        (
          record {
            valid = k.valid;
            threads = k.threads ∙ h.threads;
            pairs =
                All-map (InRange x.1) (InRange s') m'.pairs
                  (λ p fits. (omega (arith, fits.0, k.threads), omega (arith, fits.1, k.size)))
                  fits;
          },
          w,
        ),
      )

  internal_update_ends :
      (n : ℕ) (x : Random sh.Generator × Pso)
      → IsHeld n x
      → EndsIn IsProper (Updated n x) (internal_update (random sh) (random_rounds x.0 x.1) x.0 x.1)
  internal_update_ends n x h = let (r, e, updated) = internal_update-Updated n x h in rw e updated

  -- With the random update manager and a round for each of its pairs, the PSO manager keeps to what the
  -- threads of a run rely on, in every valid state that has buffers for each of them, whatever addresses
  -- the programs use and however many resets there have been.
  pub pso-Behaves : (n : ℕ) → Behaves pso_manager n (IsHeld n)
  unfolding Updated
  pso-Behaves n = record {
    load = λ x t a o h k.
        >>=-EndsIn IsProper (λ (r : ℤ × Pso). Keeps x.1 r.1) _ (load x.1 t a o) _
          (load_ends x.1 t a o h.valid) (λ r d. InRange-Keeps n x.0 x.1 r.1 h d);
    store = λ x t a v o h k. beside_lem n x.0 x.1 _ h (store_ends x.1 t a v o h.valid);
    compare_and_swap =
        λ x t a v w o h k. beside_lem n x.0 x.1 _ h (compare_and_swap_ends x.1 t a v w o h.valid);
    fetch_and_increment =
        λ x t a i o h k. beside_lem n x.0 x.1 _ h (fetch_and_increment_ends x.1 t a i o h.valid);
    fence = λ x t o h k. beside_lem n x.0 x.1 _ h (fence_ends x.1 t o h.valid);
    internal_update = λ x h.
        >>=-EndsIn IsProper (Updated n x) _
          (internal_update (random sh) (random_rounds x.0 x.1) x.0 x.1) _
          (internal_update_ends n x h) (λ r d. d.0);
  }

  internal_update-IsEmpty :
      (n : ℕ) (x y : Random sh.Generator × Pso)
      → IsHeld n x
      → pso_manager.internal_update x ≡ ok (false, y)
      → (t a : ℕ) → t < n
      → a < length x.1.storage
      → IsEmpty x.1 (t, a)
  unfolding Updated
  internal_update-IsEmpty n x y h e t a below_t below_a =
      let ends = internal_update_ends n x h in
      elim (Result-cases (internal_update (random sh) (random_rounds x.0 x.1) x.0 x.1)) [
        | inr (f, q) ↦ let e' = rw q at e in absurd (cc e')
        | inl (r, q) ↦
            let e' = rw q at e in
            let ends' = rw q at ends in
            let k : r.0 ≡ false = ap done_nothing e' in nothing r ends'.1 k
      ]
    where
      done_nothing : Result (Bool × (Random sh.Generator × Pso)) → Bool
      done_nothing (ok r) = r.0
      done_nothing (err f) = true

      nothing :
          (r : Bool × Random sh.Generator × Pso)
          → Updates x.1 (r.0, r.2)
          → r.0 ≡ false
          → IsEmpty x.1 (t, a)
      nothing (false, m', s') (_, empty) k = empty t a (omega (arith, h.threads, below_t)) below_a
      nothing (true, m', s') w k = absurd (cc)

  -- A step of the random executor over the PSO memory, with the random update manager: it leaves a run
  -- or ends at a proper fault, and if it reports that nothing was done, then all threads have completed
  -- and nothing is buffered for any address.
  pub execute-IsFlushed :
      (n : ℕ) (draws : Draws) (x : RandomExecutor draws pso_manager)
      → IsRun pso_manager n (IsHeld n) (pso-Behaves n) draws x
      → EndsIn IsProper
          (λ (r : Bool × RandomExecutor draws pso_manager).
            IsRun pso_manager n (IsHeld n) (pso-Behaves n) draws r.1
            × (r.0 ≡ false
                → (all_threads_completed x.thread_manager ≡ true)
                  × ((t a : ℕ)
                      → t < n
                      → a < length x.memory.1.storage
                      → IsEmpty x.memory.1 (t, a))))
          (execute draws pso_manager x)
  execute-IsFlushed n draws x run =
      EndsIn-map IsProper _ _ (execute draws pso_manager x)
        (λ r h. (
          h.0,
          λ k. ((h.1 k).0, internal_update-IsEmpty n x.memory r.1.memory run.memory (h.1 k).2),
        ))
        (execute-Stops pso_manager n (IsHeld n) (pso-Behaves n) draws x run)
