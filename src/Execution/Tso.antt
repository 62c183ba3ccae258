-- ===== src/Execution/Tso.antt =====
-- The TSO manager as the memory of a run, whatever addresses the programs use.
use weak_memory_models_mock.Base.{
  All-count, ap, ℕ, suc, ◌<◌, ◌≡◌, refl, ◌∙◌, Option, none, some, Bool, true, false, ℤ, ◌==ℤ◌,
  add32, ok, err, Result, ◌>>=◌, if◌then◌else◌, at, [], get_elem?, length, length-set, Option-cases,
  Result-cases, inl, inr, EndsIn, EndsIn-map, >>=-EndsIn, IsProper, arith,
}
use weak_memory_models_mock.Storage.AccessMode.{AccessMode}
use weak_memory_models_mock.Storage.Memory.{Storage}
use weak_memory_models_mock.Storage.Memory
use weak_memory_models_mock.Storage.Logger.{Entry}
use weak_memory_models_mock.Storage.Tso.Buffer.{Buffer, StoreInstruction}
use weak_memory_models_mock.Storage.Tso.Buffer
use weak_memory_models_mock.Storage.Tso.{
  Tso, UpdateManager, load, store, propagate, propagate_popped, flush_loop, flush_buffer,
  compare_and_swap, fetch_and_increment, fence, update_loop, internal_update,
}
use weak_memory_models_mock.Storage.Tso
use weak_memory_models_mock.Storage.Tso.Progress.{Covers, IsEmpty}
use weak_memory_models_mock.Execution.Steps.{Behaves, at_lem}
use weak_memory_models_mock.Execution.Threads.{all_threads_completed}
use weak_memory_models_mock.Execution.Random.{Draws, RandomExecutor, execute}
use weak_memory_models_mock.Execution.Runs.{IsRun, execute-Stops}
use weak_memory_models_mock.Execution.Memories.{Any, add32_lem}
use weak_memory_models_mock.Execution.TsoLoops.{
  Keeps, flush_buffer_ends, Turn, update_loop_ends, store_lem,
}

-- A call that leaves the update manager alone.
beside_lem :
    {M : Type 0} (m : M) (s : Tso) (r : Result Tso)
    → EndsIn IsProper (Keeps s) r
    → EndsIn IsProper (λ (x : M × Tso). Keeps s x.1) (r >>= λ s'. ok (m, s'))
beside_lem m s (ok s') h = h
beside_lem m s (err e) h = h

load_ends :
    (s : Tso) (t a : ℕ) (o : AccessMode)
    → EndsIn IsProper (λ (r : ℤ × Tso). Keeps s r.1) (load s t a o)
unfolding load
load_ends s t a o =
    >>=-EndsIn IsProper Any _ (at s.thread_buffers t) _ (at_lem s.thread_buffers t) (λ b _.
      >>=-EndsIn IsProper Any _
        (elim (Buffer.find b a) [ some v ↦ ok v | none ↦ Memory.load s.storage a ]) _
        (found (Buffer.find b a)) (λ v _. refl))
  where
    found :
        (x : Option ℤ)
        → EndsIn IsProper Any (elim x [ some v ↦ ok v | none ↦ Memory.load s.storage a ])
    found none = at_lem s.storage a
    found (some v) = tt

store_ends :
    (s : Tso) (t a : ℕ) (x : ℤ) (o : AccessMode) → EndsIn IsProper (Keeps s) (store s t a x o)
unfolding store
store_ends s t a x o = elim (Option-cases (get_elem? s.thread_buffers t)) [
  | inl e ↦ rw e tt
  | inr (b, e) ↦ rw e (length-set s.thread_buffers t _)
]

compare_and_swap_ends :
    (s : Tso) (t a : ℕ) (x y : ℤ) (o : AccessMode)
    → t < length s.thread_buffers
    → EndsIn IsProper (Keeps s) (compare_and_swap s t a x y o)
unfolding compare_and_swap
compare_and_swap_ends s t a x y o h =
    >>=-EndsIn IsProper (Keeps s) (Keeps s) (flush_buffer s t) _ (flush_buffer_ends s t h) (λ s₁ k.
      >>=-EndsIn IsProper Any (Keeps s) (at s₁.storage a) _ (at_lem s₁.storage a)
        (λ v _. swap (v ==ℤ x) (Tso.logged s₁ (Entry.compare_and_swap t a x (some v) y o)) k))
  where
    swap :
        (b : Bool) (s₂ : Tso)
        → Keeps s s₂
        → EndsIn IsProper (Keeps s) (
            if b
            then (Memory.store s₂.storage a y >>= λ storage. ok (record s₂ { storage = storage }))
            else ok s₂)
    swap true s₂ k =
        EndsIn-map IsProper (Keeps s₂) (Keeps s) _ (λ s₃ k'. k' ∙ k) (store_lem s₂.storage a y s₂)
    swap false s₂ k = k

fetch_and_increment_ends :
    (s : Tso) (t a : ℕ) (i : ℤ) (o : AccessMode)
    → t < length s.thread_buffers
    → EndsIn IsProper (Keeps s) (fetch_and_increment s t a i o)
unfolding fetch_and_increment
fetch_and_increment_ends s t a i o h =
    >>=-EndsIn IsProper (Keeps s) (Keeps s) (flush_buffer s t) _ (flush_buffer_ends s t h) (λ s₁ k.
      >>=-EndsIn IsProper Any (Keeps s) (at s₁.storage a) _ (at_lem s₁.storage a) (λ v _.
        >>=-EndsIn IsProper Any (Keeps s) (add32 v i) _ (add32_lem v i) (λ sum _.
          EndsIn-map IsProper (Keeps s₁) (Keeps s) _ (λ s₃ k'. k' ∙ k)
            (store_lem s₁.storage a sum
              (Tso.logged s₁ (Entry.fetch_and_increment t a i o false))))))

fence_ends :
    (s : Tso) (t : ℕ) (o : AccessMode)
    → t < length s.thread_buffers
    → EndsIn IsProper (Keeps s) (fence s t o)
unfolding fence
fence_ends s t o h =
    >>=-EndsIn IsProper (Keeps s) (Keeps s) (flush_buffer s t) _ (flush_buffer_ends s t h)
      (λ s₁ k. k)

-- With an update manager that offers each thread once, in whatever order, the TSO manager keeps to
-- what the threads of a run rely on, in every state that has a buffer for each of them and whatever
-- is buffered.
pub tso-Behaves :
    {M : Type 0} (u : UpdateManager M)
    → ((m : M) (s : Tso) → Covers u m s)
    → (n : ℕ) → Behaves (Tso.manager u) n (λ (x : M × Tso). length x.1.thread_buffers ≡ n)
unfolding internal_update
tso-Behaves {M} u covers n = record {
  load = λ x t a o k h.
      >>=-EndsIn IsProper (λ (r : ℤ × Tso). Keeps x.1 r.1) _ (load x.1 t a o) _
        (load_ends x.1 t a o) (λ r d. d ∙ k);
  store = λ x t a v o k h. over x k _ (store_ends x.1 t a v o);
  compare_and_swap =
      λ x t a v w o k h. over x k _ (compare_and_swap_ends x.1 t a v w o (omega (arith, k, h)));
  fetch_and_increment =
      λ x t a i o k h. over x k _ (fetch_and_increment_ends x.1 t a i o (omega (arith, k, h)));
  fence = λ x t o k h. over x k _ (fence_ends x.1 t o (omega (arith, k, h)));
  internal_update = λ x k.
      let c = covers x.0 x.1 in
      >>=-EndsIn IsProper (Turn x.1 c.ids) _
        (update_loop u (suc (length x.1.thread_buffers)) (u.reset x.0 x.1) x.1) _
        (update_loop_ends u (suc (length x.1.thread_buffers)) (u.reset x.0 x.1) c.ids x.1 c.offers
          (omega (arith, c.size)) c.threads)
        (λ r d. d.0 ∙ k);
}
  where
    over :
        (x : M × Tso)
        → length x.1.thread_buffers ≡ n
        → (r : Result Tso) → EndsIn IsProper (Keeps x.1) r
        → EndsIn IsProper
            (λ (y : M × Tso). length y.1.thread_buffers ≡ n)
            (r >>= λ s'. ok (x.0, s'))
    over x k r h =
        EndsIn-map IsProper (λ (y : M × Tso). Keeps x.1 y.1) _ (r >>= λ s'. ok (x.0, s'))
          (λ y d. d ∙ k) (beside_lem x.0 x.1 r h)

module _ {M : Type 0} (u : UpdateManager M) (covers : (m : M) (s : Tso) → Covers u m s) where
  internal_update-IsEmpty :
      (m : M) (s : Tso) (y : M × Tso)
      → (Tso.manager u).internal_update (m, s) ≡ ok (false, y)
      → (t : ℕ) → t < length s.thread_buffers
      → IsEmpty s t
  unfolding internal_update
  internal_update-IsEmpty m s y e t h =
      let c = covers m s in
      let n = suc (length s.thread_buffers) in
      let ends =
        update_loop_ends u n (u.reset m s) c.ids s c.offers (omega (arith, c.size)) c.threads in
      elim (Result-cases (update_loop u n (u.reset m s) s)) [
        | inr (f, q) ↦ let e' = rw q at e in absurd (cc e')
        | inl (r, q) ↦
            let e' = rw q at e in
            let ends' = rw q at ends in
            let k : r.0 ≡ false = ap done_nothing e' in
            All-count (IsEmpty s) c.ids t (ends'.1 k).1 (c.every t h)
      ]
    where
      done_nothing : Result (Bool × (M × Tso)) → Bool
      done_nothing (ok r) = r.0
      done_nothing (err f) = true

  -- A step of the random executor over the TSO memory, with an update manager that offers each
  -- thread once: it leaves a run or ends at a proper fault, and if it reports that nothing was done,
  -- then all threads have completed and nothing is buffered.
  pub execute-IsDrained :
      (n : ℕ) (draws : Draws) (x : RandomExecutor draws (Tso.manager u))
      → IsRun
          (Tso.manager u)
          n
          (λ (y : M × Tso). length y.1.thread_buffers ≡ n)
          (tso-Behaves u covers n)
          draws
          x
      → EndsIn IsProper
          (λ (r : Bool × RandomExecutor draws (Tso.manager u)).
            IsRun
              (Tso.manager u)
              n
              (λ (y : M × Tso). length y.1.thread_buffers ≡ n)
              (tso-Behaves u covers n)
              draws
              r.1
            × (r.0 ≡ false
                → (all_threads_completed x.thread_manager ≡ true)
                  × ((t : ℕ) → t < n → get_elem? x.memory.1.thread_buffers t ≡ some [])))
          (execute draws (Tso.manager u) x)
  execute-IsDrained n draws x run =
      EndsIn-map IsProper _ _ (execute draws (Tso.manager u) x)
        (λ r h. (
          h.0,
          λ k. (
            (h.1 k).0,
            λ t below.
                internal_update-IsEmpty x.memory.0 x.memory.1 r.1.memory (h.1 k).2 t
                  (omega (arith, run.memory, below)),
          ),
        ))
        (execute-Stops (Tso.manager u) n (λ (y : M × Tso). length y.1.thread_buffers ≡ n)
          (tso-Behaves u covers n) draws x run)
