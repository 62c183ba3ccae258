-- ===== src/Execution/Runs.antt =====
-- A run: the random executor over any storage manager that keeps an invariant.
use weak_memory_models_mock.Base.{
  ℕ, ◌<◌, ◌≡◌, refl, sym, ap, ◌∙◌, subst, Bool, true, false, not, some, ◌==◌, List, [], ◌∷◌, ok,
  length, length-set, get_elem?, get_elem?-some, EndsIn, EndsIn-map, >>=-EndsIn, IsProper,
  Bool-cases, Result-cases, inl, inr, arith, All, All-set, All-get_elem?, All-count, each_of_count,
  length-shuffle,
}
use weak_memory_models_mock.Storage.Manager.{StorageManager}
use weak_memory_models_mock.Execution.Thread.{Thread, is_finished, evaluate_instruction}
use weak_memory_models_mock.Execution.Threads.{
  ThreadManager, evaluate_thread, unfinished_threads, all_threads_completed,
}
use weak_memory_models_mock.Execution.Random.{
  Draws, RandomExecutor, try_threads, execute_one_of, execute_thread,
  execute_internal_memory_update, execute, or_else,
}
use weak_memory_models_mock.Execution.Steps.{Behaves, IsValid, evaluate_instruction-Follows}
use weak_memory_models_mock.Execution.Numbers.{
  Numbered, Numbered-get_elem?, Numbered-set, Runnable, unfinished_threads-Runnable,
  unfinished_threads_lem,
}

-- The threads of a run are valid, and each has its position as its number.
pub record AreValid (threads : ThreadManager) : Type 0 where
  pub valid : All IsValid threads
  pub numbered : Numbered 0 threads

module _ {S : Type 0} (manager : StorageManager S) (n : ℕ) (Inv : S → Type 0)
    (behaves : Behaves manager n Inv) where
  evaluate_thread_lem :
      (threads : ThreadManager) (t : ℕ) (th : Thread) (s : S)
      → AreValid threads
      → length threads ≡ n
      → Inv s
      → get_elem? threads t ≡ some th
      → EndsIn IsProper
          (λ (r : Bool × ThreadManager × S).
            (r.0 ≡ not (is_finished th)) × AreValid r.1 × (length r.1 ≡ n) × Inv r.2)
          (evaluate_thread manager threads t s)
  unfolding evaluate_thread
  evaluate_thread_lem threads t th s v size inv e =
      let here = get_elem?-some threads t e in
      let id = Numbered-get_elem? 0 threads t v.numbered e in
      rw e (
        >>=-EndsIn IsProper _ _ (evaluate_instruction manager th s) _
          (evaluate_instruction-Follows manager n Inv behaves th s
            (All-get_elem? IsValid threads t v.valid e) (omega (arith, id, here, size)) inv)
          (λ r h. (
            h.0,
            record {
              valid = All-set IsValid threads t r.1 h.1.valid v.valid;
              numbered = Numbered-set 0 threads t r.1 v.numbered e h.1.id;
            },
            length-set threads t r.1 ∙ size,
            h.2,
          )))

  module _ (draws : Draws) where
    open draws use {shuffle, draw_bit}

    -- The threads are valid, as many as the memory knows, and the memory keeps its invariant.
    pub record IsRun (x : RandomExecutor draws manager) : Type 0 where
      pub threads : AreValid x.thread_manager
      pub count : length x.thread_manager ≡ n
      pub memory : Inv x.memory

    Ran : Bool × RandomExecutor draws manager → Type 0
    Ran r = (r.0 ≡ true) × IsRun r.1

    try_threads_lem :
        (order : List ℕ) (x : RandomExecutor draws manager)
        → IsRun x
        → 0 < length order
        → All (Runnable 0 x.thread_manager) order
        → EndsIn IsProper Ran (try_threads draws manager order x)
    unfolding try_threads Ran
    try_threads_lem [] x run some_thread all = absurd (omega arith)
    try_threads_lem (t ∷ rest) x run some_thread ((i, th, p, e, f), _) =
        let e' : get_elem? x.thread_manager t ≡ some th =
          subst (λ j. get_elem? x.thread_manager j ≡ some th) (omega (arith, p)) e in
        >>=-EndsIn IsProper _ Ran (evaluate_thread manager x.thread_manager t x.memory) _
          (evaluate_thread_lem x.thread_manager t th x.memory run.threads run.count run.memory e')
          (λ r h.
            let q : r.0 ≡ true = h.0 ∙ ap not f in
            rw q (refl, record { threads = h.1; count = h.2; memory = h.3 }))

    execute_one_of_lem :
        (ids : List ℕ) (x : RandomExecutor draws manager)
        → IsRun x
        → (length ids == 0) ≡ false
        → All (Runnable 0 x.thread_manager) ids
        → EndsIn IsProper Ran (execute_one_of draws manager ids x)
    unfolding execute_one_of
    execute_one_of_lem [] x run e all = absurd (cc)
    execute_one_of_lem (t ∷ rest) x run e all =
        let order = (shuffle.shuffle ℕ x.random_generator (t ∷ rest)).0 in
        let g = (shuffle.shuffle ℕ x.random_generator (t ∷ rest)).1 in
        let size = length-shuffle shuffle ℕ x.random_generator (t ∷ rest) in
        try_threads_lem order (record x { random_generator = g })
          (record { threads = run.threads; count = run.count; memory = run.memory })
          (omega (arith, size))
          (each_of_count (Runnable 0 x.thread_manager) order (λ a h.
            let c = shuffle.count-shuffle ℕ x.random_generator (t ∷ rest) (λ y. y == a) in
            All-count (Runnable 0 x.thread_manager) (t ∷ rest) a all (omega (arith, c, h))))

    -- Where a thread has not finished, one is found that takes a step.
    execute_thread_lem :
        (x : RandomExecutor draws manager)
        → IsRun x
        → all_threads_completed x.thread_manager ≡ false
        → EndsIn IsProper Ran (execute_thread draws manager x)
    unfolding execute_thread
    execute_thread_lem x run e =
        execute_one_of_lem (unfinished_threads x.thread_manager) x run
          (sym (unfinished_threads_lem x.thread_manager) ∙ e)
          (unfinished_threads-Runnable 0 x.thread_manager run.threads.numbered)

    -- Where all have finished, no thread is executed and nothing changes.
    pub execute_thread-completed :
        (x : RandomExecutor draws manager)
        → all_threads_completed x.thread_manager ≡ true
        → execute_thread draws manager x ≡ ok (false, x)
    unfolding execute_thread execute_one_of
    execute_thread-completed x e =
        go (unfinished_threads x.thread_manager) (sym (unfinished_threads_lem x.thread_manager) ∙ e)
      where
        go :
            (ids : List ℕ)
            → (length ids == 0) ≡ true
            → execute_one_of draws manager ids x ≡ ok (false, x)
        go [] h = refl
        go (t ∷ rest) h = absurd (ground (arith, h))

    -- What a call of `execute` gives: a run, and if nothing was done then why.
    Executed : RandomExecutor draws manager → Bool × RandomExecutor draws manager → Type 0
    Executed x r =
        IsRun r.1
        × (r.0 ≡ false
            → (all_threads_completed x.thread_manager ≡ true)
              × (r.1.thread_manager ≡ x.thread_manager)
              × (manager.internal_update x.memory ≡ ok (false, r.1.memory)))

    memory_first :
        (x : RandomExecutor draws manager)
        → IsRun x
        → EndsIn IsProper (Executed x) (
            or_else draws manager
              (execute_internal_memory_update draws manager)
              (execute_thread draws manager)
              x)
    unfolding execute_internal_memory_update Executed Ran
    memory_first x run =
        let b = behaves.internal_update x.memory run.memory in
        elim (Result-cases (manager.internal_update x.memory)) [
          | inr (f, e) ↦ let b' = rw e at b in rw e b'
          | inl ((true, s), e) ↦
              let b' = rw e at b in
              rw e
                (record { threads = run.threads; count = run.count; memory = b' }, λ k. absurd (cc))
          | inl ((false, s), e) ↦
              let b' = rw e at b in
              let x' : RandomExecutor draws manager = record x { memory = s } in
              let run' : IsRun x' = record {
                threads = run.threads;
                count = run.count;
                memory = b';
              } in
              elim (Bool-cases (all_threads_completed x.thread_manager)) [
                | inl c ↦ rw (e, execute_thread-completed x' c) (run', λ _. (c, refl, e))
                | inr c ↦ rw e (
                    EndsIn-map IsProper Ran _ (execute_thread draws manager x')
                      (λ r h. (h.1, λ k. absurd (cc (h.0)))) (execute_thread_lem x' run' c))
              ]
        ]

    threads_first :
        (x : RandomExecutor draws manager)
        → IsRun x
        → EndsIn IsProper (Executed x) (
            or_else draws manager
              (execute_thread draws manager)
              (execute_internal_memory_update draws manager)
              x)
    unfolding execute_internal_memory_update Executed Ran
    threads_first x run = elim (Bool-cases (all_threads_completed x.thread_manager)) [
      | inr c ↦
          >>=-EndsIn IsProper Ran _ (execute_thread draws manager x) _ (execute_thread_lem x run c)
            (λ r h. rw h.0 (h.1, λ k. absurd (cc)))
      | inl c ↦
          let b = behaves.internal_update x.memory run.memory in
          rw (execute_thread-completed x c)
            (elim (Result-cases (manager.internal_update x.memory)) [
              | inr (f, e) ↦ let b' = rw e at b in rw e b'
              | inl (r, e) ↦
                  let b' = rw e at b in
                  rw e (
                    record { threads = run.threads; count = run.count; memory = b' },
                    λ k.
                        let q : manager.internal_update x.memory ≡ ok (false, r.1) = rw (← k) e in
                        (c, refl, q),
                  )
            ])
    ]

    -- Over a memory that keeps its invariant, a step of the random executor leaves a run or ends at
    -- a proper fault: it never finds all threads blocked, and reads through no null pointer. If it
    -- reports that nothing was done, then all threads have completed and are unchanged, and the
    -- memory has reported that it had nothing to do.
    pub execute-Stops :
        (x : RandomExecutor draws manager)
        → IsRun x
        → EndsIn IsProper
            (λ (r : Bool × RandomExecutor draws manager).
              IsRun r.1
              × (r.0 ≡ false
                  → (all_threads_completed x.thread_manager ≡ true)
                    × (r.1.thread_manager ≡ x.thread_manager)
                    × (manager.internal_update x.memory ≡ ok (false, r.1.memory))))
            (execute draws manager x)
    unfolding execute Executed
    execute-Stops x run =
        let x' : RandomExecutor draws manager = record x {
          random_generator = (draw_bit x.random_generator).1;
        } in
        let run' : IsRun x' = record {
          threads = run.threads;
          count = run.count;
          memory = run.memory;
        } in
        elim (Bool-cases (draw_bit x.random_generator).0) [
          | inl e ↦ rw e (threads_first x' run')
          | inr e ↦ rw e (memory_first x' run')
        ]
