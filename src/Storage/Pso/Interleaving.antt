-- ===== src/Storage/Pso/Interleaving.antt =====
-- The calls of all threads and the updates of the PSO manager, in any order.
use weak_memory_models_mock.Base.{
  ℕ, zero, suc, ◌<◌, ◌≡◌, refl, Bool, true, false, Option, none, some, ℤ, ◌==ℤ◌, List, [], ◌∷◌,
  ◌++◌, Result, Fault, ◌>>=◌, ok, err, if◌then◌else◌, length, get_elem?, get_elem?-lt, EndsIn,
  >>=-EndsIn, Result-cases, inl, inr, arith, All, All-append, All-map, Shuffle,
}
use weak_memory_models_mock.Storage.Manager.{StorageManager, Operation, perform, silent, thread_of}
use weak_memory_models_mock.Storage.Turns.{Turn, interleave, Brings, Admits, Returned}
use weak_memory_models_mock.Storage.Pso.Buffers.{AddressBuffer, ThreadBuffer}
use weak_memory_models_mock.Storage.Pso.{
  Pso, UpdateManager, load, store, compare_and_swap, fetch_and_increment, fence, internal_update,
}
use weak_memory_models_mock.Storage.Pso
use weak_memory_models_mock.Storage.Pso.Flush.{IsValid}
use weak_memory_models_mock.Storage.Pso.Updates.{Random, random, random_rounds}
use weak_memory_models_mock.Storage.Pso.Progress.{Updates, InRange}
use weak_memory_models_mock.Storage.Pso.Random.{pso_random_progress}
use weak_memory_models_mock.Storage.Pso.Machine.{view, Label, committing, stop, follow, commits_of}
use weak_memory_models_mock.Storage.Pso.Commits.{queue_commits, commits_from}
use weak_memory_models_mock.Storage.Pso.Refines.{Implements, manager-Refines}
use weak_memory_models_mock.Storage.Pso.Supplies.{IsSupplied, Supplies, Observes, Steps-IsSupplied}

-- A call does not touch the update manager.
module _ {M : Type 0} (u : UpdateManager M) (rounds : M → Pso → ℕ) (k : M) (s : Pso) where
  abbrev Leaves : Result (Option ℤ × (M × Pso)) → Type 0
  Leaves call = EndsIn (λ fault. Unit) (λ (r : Option ℤ × (M × Pso)). r.1.0 ≡ k) call

  silent-Leaves : (call : Result Pso) → Leaves (silent (call >>= λ s'. ok (k, s')))
  silent-Leaves (ok s') = refl
  silent-Leaves (err fault) = tt

  perform-Leaves : (op : Operation) → Leaves (perform (Pso.manager u rounds) op (k, s))
  perform-Leaves (Operation.load t a o) = elim (Result-cases (load s t a o)) [
    | inl (r, e) ↦ rw e refl
    | inr (fault, e) ↦ rw e tt
  ]
  perform-Leaves (Operation.store t a v o) = silent-Leaves (store s t a v o)
  perform-Leaves (Operation.compare_and_swap t a x v o) =
      silent-Leaves (compare_and_swap s t a x v o)
  perform-Leaves (Operation.fetch_and_increment t a i o) =
      silent-Leaves (fetch_and_increment s t a i o)
  perform-Leaves (Operation.fence t o) = silent-Leaves (fence s t o)

module _ (P : ℤ → Type 0) where
  commits_of-Supplies : (t a : ℕ) (queue : AddressBuffer) → All (Supplies P) (commits_of t a queue)
  commits_of-Supplies t a [] = tt
  commits_of-Supplies t a (v ∷ queue) = (tt, commits_of-Supplies t a queue)

  queue_commits-Supplies :
      (t a : ℕ) (found : Option AddressBuffer) → All (Supplies P) (queue_commits t a found)
  queue_commits-Supplies t a none = tt
  queue_commits-Supplies t a (some queue) = commits_of-Supplies t a queue

  commits_from-Supplies :
      (t : ℕ) (tb : ThreadBuffer) (from count : ℕ) → All (Supplies P) (commits_from t tb from count)
  commits_from-Supplies t tb from zero = tt
  commits_from-Supplies t tb from (suc count) =
      All-append (Supplies P) (queue_commits t from (get_elem? tb from))
        (commits_from t tb (suc from) count) (queue_commits-Supplies t from (get_elem? tb from))
        (commits_from-Supplies t tb (suc from) count)

  last_label :
      (commits : List Label) (l : Label) {ls : List Label}
      → All (Supplies P) commits
      → Supplies P l
      → ls ≡ commits ++ (l ∷ [])
      → All (Supplies P) ls
  last_label commits l all h e = rw e (All-append (Supplies P) commits (l ∷ []) all (h, tt))

  Implements-Supplies :
      (op : Operation) (tb : ThreadBuffer) (r : Option ℤ) (ls : List Label)
      → Brings P op
      → Implements op tb r ls
      → All (Supplies P) ls
  Implements-Supplies (Operation.load t a o) tb none ls h k = absurd k
  Implements-Supplies (Operation.load t a o) tb (some v) ls h k = rw k (tt, tt)
  Implements-Supplies (Operation.store t a v o) tb r ls h k = rw k.1 (h, tt)
  Implements-Supplies (Operation.compare_and_swap t a expected new o) tb r ls h (_, x, e) =
      last_label _ _ (queue_commits-Supplies t a (get_elem? tb a)) (either (x ==ℤ expected)) e
    where
      either : (c : Bool) → P x → P (if c then new else x)
      either true p = h
      either false p = p
  Implements-Supplies (Operation.fetch_and_increment t a i o) tb r ls h (_, x, y, q, e) =
      last_label _ _ (queue_commits-Supplies t a (get_elem? tb a)) (λ p. h x y p q) e
  Implements-Supplies (Operation.fence t o) tb r ls h k =
      last_label _ _ (commits_from-Supplies t tb 0 (length tb)) tt k.1

  Implements-Returned :
      (op : Operation) (tb : ThreadBuffer) (r : Option ℤ) (ls : List Label)
      → Implements op tb r ls
      → All (Observes P) ls
      → Returned P r
  Implements-Returned (Operation.load t a o) tb none ls k h = absurd k
  Implements-Returned (Operation.load t a o) tb (some v) ls k h = let h' = rw k at h in h'.0
  Implements-Returned (Operation.store t a v o) tb r ls k h = rw k.0 tt
  Implements-Returned (Operation.compare_and_swap t a x y o) tb r ls k h = rw k.0 tt
  Implements-Returned (Operation.fetch_and_increment t a i o) tb r ls k h = rw k.0 tt
  Implements-Returned (Operation.fence t o) tb r ls k h = rw k.0 tt

  -- The pairs of earlier resets name buffers, too.
  pub record IsReady {G : Type 0} (threads size : ℕ) (x : Random G × Pso) : Type 0 where
    pub supplied : IsSupplied P threads size (view x.1)
    pub pairs : All (λ (p : ℕ × ℕ). (p.0 < threads) × (p.1 < size)) x.0.pairs

  module _ (sh : Shuffle) (threads size : ℕ) where
    abbrev pub random_manager : StorageManager (Random sh.Generator × Pso)
    random_manager = Pso.manager (random sh) random_rounds

    valid : (s : Pso) → IsSupplied P threads size (view s) → IsValid s
    valid s h = rw h.cells h.wide

    call-IsReady :
        (op : Operation) (x : Random sh.Generator × Pso)
        → IsReady threads size x
        → Admits P threads size (Turn.call op)
        → EndsIn
            (λ fault. fault ≡ Fault.overflow)
            (λ (r : Option ℤ × (Random sh.Generator × Pso)).
              Returned P r.0 × IsReady threads size r.1)
            (perform random_manager op x)
    call-IsReady op x h (below, address, brings) =
        let (tb, here) =
          get_elem?-lt x.1.thread_buffers (thread_of op) (omega (arith, h.supplied.count, below)) in
        let refines =
          manager-Refines (random sh) random_rounds x.0 x.1 op tb (valid x.1 h.supplied) here
            (rw h.supplied.cells address) in
        let leaves = perform-Leaves (random sh) random_rounds x.0 x.1 op in
        elim (Result-cases (perform random_manager op x)) [
          | inr (fault, e) ↦ let refines' = rw e at refines in rw e refines'
          | inl (r, e) ↦
              let (ls, steps, implements) = rw e at refines in
              let (supplied, seen) =
                Steps-IsSupplied P steps h.supplied
                  (Implements-Supplies op tb r.0 ls brings implements) in
              let same : r.1.0 ≡ x.0 = rw e at leaves in
              rw e (
                Implements-Returned op tb r.0 ls implements seen,
                record { supplied = supplied; pairs = rw same h.pairs },
              )
        ]

    updated :
        (s : Pso) (r : Bool × Pso)
        → IsSupplied P threads size (view s)
        → Updates s r
        → IsSupplied P threads size (view r.1)
    updated s (false, s') h (same, _) = rw same h
    updated s (true, s') h (t, a, tb, v, b, here, e, q) =
        let (h', _) =
          Steps-IsSupplied P
            (follow (committing {a = a} {v = v} {queue = b} (tb, here, e) refl) stop) h (tt, tt) in
        rw q h'

    -- No value comes out of thin air under PSO. Whatever the threads call and whenever the memory
    -- updates itself with the random update manager, in whatever order, every value that a load returns
    -- has any property that the values of the memory and of the buffers have at the start, that all
    -- values have that are stored or swapped in, and that the increments keep. The calls are by threads
    -- and to addresses that exist, and the only fault is an increment that overflows.
    pub interleave-Supplied :
        (turns : List Turn) (x : Random sh.Generator × Pso)
        → IsReady threads size x
        → All (Admits P threads size) turns
        → EndsIn
            (λ fault. fault ≡ Fault.overflow)
            (λ (r : List (Option ℤ) × (Random sh.Generator × Pso)).
              All (Returned P) r.0 × IsReady threads size r.1)
            (interleave random_manager turns x)
    unfolding interleave
    interleave-Supplied [] x h admits = (tt, h)
    interleave-Supplied (Turn.call op ∷ turns) x h admits =
        >>=-EndsIn (λ fault. fault ≡ Fault.overflow) _ _ (perform random_manager op x) _
          (call-IsReady op x h admits.0)
          (λ r ready.
            >>=-EndsIn (λ fault. fault ≡ Fault.overflow) _ _ (interleave random_manager turns r.1) _
              (interleave-Supplied turns r.1 ready.1 admits.1)
              (λ rest all. ((ready.0, all.0), all.1)))
    interleave-Supplied (Turn.update ∷ turns) x h admits =
        let n = h.supplied.count in
        let k = h.supplied.cells in
        let (r, m', s', e, w, fits) = pso_random_progress sh x.0 x.1 (valid x.1 h.supplied) (
          All-map (λ (p : ℕ × ℕ). (p.0 < threads) × (p.1 < size)) (InRange x.1) x.0.pairs
            (λ p fits. (omega (arith, fits.0, n), omega (arith, fits.1, k))) h.pairs) in
        rw e (
          interleave-Supplied turns (m', s')
            (record {
              supplied = updated x.1 (r, s') h.supplied w;
              pairs =
                  All-map (InRange x.1) (λ (p : ℕ × ℕ). (p.0 < threads) × (p.1 < size)) m'.pairs
                    (λ p fits. (omega (arith, fits.0, n), omega (arith, fits.1, k))) fits;
            })
            admits.1)
