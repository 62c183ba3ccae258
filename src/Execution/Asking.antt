-- ===== src/Execution/Asking.antt =====
-- The loops of the interactive executor, over any storage manager that keeps an invariant.
use weak_memory_models_mock.Base.{
  ℕ, zero, suc, ◌<◌, ◌≡◌, refl, ap, ◌∙◌, Bool, true, false, not, none, some, List, [], ◌∷◌, Result,
  at, set, ltb, length, length-set, get_elem?, get_elem?-lt, indices, All, All-indices,
  All-get_elem?, All-set, EndsIn, EndsIn-map, >>=-EndsIn, IsProper, Bool-cases, Option-cases, inl,
  inr, arith,
}
use weak_memory_models_mock.Program
use weak_memory_models_mock.Storage.Manager.{StorageManager}
use weak_memory_models_mock.Execution.Thread.{Thread, is_finished, evaluate_instruction}
use weak_memory_models_mock.Execution.Threads.{
  ThreadManager, evaluate_thread, evaluate_thread_local_instructions,
  get_current_instruction_for_thread,
}
use weak_memory_models_mock.Execution.Steps.{
  Behaves, IsValid, Follows, at_lem, evaluate_instruction-Follows,
}
use weak_memory_models_mock.Execution.Numbers.{Numbered, Numbered-get_elem?, Numbered-set}
use weak_memory_models_mock.Execution.Local.{
  IsForward, Stopped, evaluate_thread_local_instructions-Stopped,
}
use weak_memory_models_mock.Execution.Interactive.{
  Input, InteractiveExecutor, evaluate_local, after_thread, ask_thread, execute_thread,
  execute_internal_memory_update, or_else, chosen, execute_chosen, ask_operation, execute,
}

-- A valid thread whose program jumps forward only and has fewer instructions than the local loop has
-- rounds.
pub record IsReady (fuel : ℕ) (th : Thread) : Type 0 where
  pub valid : IsValid th
  pub forward : IsForward th.program
  pub short : Program.size th.program < fuel

IsReady-Follows : (fuel : ℕ) (th th' : Thread) → IsReady fuel th → Follows th th' → IsReady fuel th'
IsReady-Follows fuel th th' h follows = record {
  valid = follows.valid;
  forward = rw follows.program h.forward;
  short = rw follows.program h.short;
}

-- A read that succeeds takes something from the input.
pub record Reads {S : Type 0} (input : Input S) : Type 0 where
  pub operation :
      (s : S) (c : ℕ)
      → (input.read_operation s).0 ≡ some c
      → input.left (input.read_operation s).1 < input.left s
  pub thread_id :
      (s : S)
      → (input.read_thread_id s).0 ≡ false
      → input.fails s ≡ false
      → input.left (input.read_thread_id s).2 < input.left s

-- What is typed: where an operation is asked for, characters up to one that names an operation, and
-- from there on a number wherever a thread is asked for.
pub record Typed {S : Type 0} (input : Input S) (Asked Inv : S → Type 0) : Type 0 where
  pub again :
      (s : S) (c : ℕ)
      → Asked s
      → (input.read_operation s).0 ≡ some c
      → chosen c ≡ none
      → Asked (input.read_operation s).1
  pub begins :
      (s : S) (c : ℕ) (first : Bool)
      → Asked s
      → (input.read_operation s).0 ≡ some c
      → chosen c ≡ some first
      → Inv (input.read_operation s).1
  pub ends : (s : S) → Asked s → (input.read_operation s).0 ≡ none → Inv (input.read_operation s).1
  pub numbers : (s : S) → Inv s → input.fails s ≡ false
  pub keeps : (s : S) → Inv s → Inv (input.read_thread_id s).2

module _ {S : Type 0} (manager : StorageManager S) (n : ℕ) (Asked Inv : S → Type 0)
    (behaves : Behaves manager n Inv) (input : Input S) (reads : Reads input)
    (typed : Typed input Asked Inv) (fuel : ℕ) where
  abbrev Executor : Type 0
  Executor = InteractiveExecutor manager input fuel

  pub record IsWaiting (Holds : S → Type 0) (x : Executor) : Type 0 where
    pub ready : All (IsReady fuel) x.thread_manager
    pub numbered : Numbered 0 x.thread_manager
    pub count : length x.thread_manager ≡ n
    pub memory : Holds x.memory

  -- One thread replaced by itself after some steps.
  put_thread :
      (x : Executor) (t : ℕ) (th th' : Thread) (threads : ThreadManager) (s : S)
      → IsWaiting Inv x
      → get_elem? x.thread_manager t ≡ some th
      → threads ≡ set x.thread_manager t th'
      → Follows th th'
      → Inv s
      → IsWaiting Inv (record { thread_manager = threads; memory = s })
  put_thread x t th th' threads s w here put follows inv = record {
    ready = rw put (
        All-set (IsReady fuel) x.thread_manager t th'
          (IsReady-Follows fuel th th'
            (All-get_elem? (IsReady fuel) x.thread_manager t w.ready here) follows)
          w.ready);
    numbered = rw put (Numbered-set 0 x.thread_manager t th' w.numbered here follows.id);
    count = rw put (length-set x.thread_manager t th' ∙ w.count);
    memory = inv;
  }

  -- A thread's instruction: where nothing was evaluated, nothing has changed.
  Evaluated : Executor → Bool × ThreadManager × S → Type 0
  Evaluated x r =
      IsWaiting Inv (record { thread_manager = r.1; memory = r.2 }) × (r.0 ≡ false → r.2 ≡ x.memory)

  evaluate_thread-Evaluated :
      (x : Executor) (t : ℕ)
      → IsWaiting Inv x
      → t < n
      → EndsIn IsProper (Evaluated x) (evaluate_thread manager x.thread_manager t x.memory)
  unfolding evaluate_thread Evaluated
  evaluate_thread-Evaluated x t w below =
      let (th, here) = get_elem?-lt x.thread_manager t (omega (arith, w.count, below)) in
      let ready = All-get_elem? (IsReady fuel) x.thread_manager t w.ready here in
      let id = Numbered-get_elem? 0 x.thread_manager t w.numbered here in
      rw here (
        >>=-EndsIn IsProper _ _ (evaluate_instruction manager th x.memory) _
          (evaluate_instruction-Follows manager n Inv behaves th x.memory ready.valid
            (omega (arith, id, below)) w.memory)
          (λ r h. (
            put_thread x t th r.1 _ r.2 w here refl h.1 h.2,
            λ e. (h.3 (finished th r.0 h.0 e)).1,
          )))
    where
      finished :
          (th : Thread) (b : Bool) → b ≡ not (is_finished th) → b ≡ false → is_finished th ≡ true
      finished th b e f = elim (Bool-cases (is_finished th)) [
        | inl q ↦ q
        | inr q ↦ let e' = rw q at e in absurd (cc)
      ]

  local-IsWaiting :
      (x : Executor) (t : ℕ)
      → IsWaiting Inv x
      → t < n
      → EndsIn IsProper
          (λ (r : ThreadManager × S). IsWaiting Inv (record { thread_manager = r.0; memory = r.1 }))
          (evaluate_thread_local_instructions manager fuel x.thread_manager t x.memory)
  local-IsWaiting x t w below =
      let (th, here) = get_elem?-lt x.thread_manager t (omega (arith, w.count, below)) in
      let ready = All-get_elem? (IsReady fuel) x.thread_manager t w.ready here in
      EndsIn-map IsProper (Stopped manager x.thread_manager t th x.memory) _
        (evaluate_thread_local_instructions manager fuel x.thread_manager t x.memory)
        (λ r h. put_thread x t th h.0 r.0 r.1 w here h.1 h.3 (rw h.2 w.memory))
        (evaluate_thread_local_instructions-Stopped manager fuel x.thread_manager t th x.memory here
          ready.valid ready.forward (omega (arith, ready.short)))

  abbrev Waits : Bool × Executor → Type 0
  Waits r = IsWaiting Inv r.1

  evaluate_local-Waits :
      (ids : List ℕ) (x : Executor)
      → IsWaiting Inv x
      → All (λ t. t < n) ids
      → EndsIn IsProper Waits (evaluate_local manager input fuel ids x)
  unfolding evaluate_local
  evaluate_local-Waits [] x w h = w
  evaluate_local-Waits (t ∷ rest) x w h =
      >>=-EndsIn IsProper
        (λ (r : ThreadManager × S). IsWaiting Inv (record { thread_manager = r.0; memory = r.1 }))
        Waits (evaluate_thread_local_instructions manager fuel x.thread_manager t x.memory) _
        (local-IsWaiting x t w h.0)
        (λ r w'.
          >>=-EndsIn IsProper (λ i. Unit {0}) Waits (get_current_instruction_for_thread r.0 t) _
            (>>=-EndsIn IsProper _ _ (at r.0 t) _ (at_lem r.0 t) (λ th _. tt))
            (λ i _.
              >>=-EndsIn IsProper Waits Waits _ _
                (evaluate_local-Waits rest (record { thread_manager = r.0; memory = r.1 }) w' h.1)
                (λ others w''. w'')))

  after_thread-Waits :
      (x : Executor) (t : ℕ)
      → IsWaiting Inv x
      → t < n
      → EndsIn IsProper Waits (after_thread manager input fuel t (x.thread_manager, x.memory))
  after_thread-Waits x t w below =
      >>=-EndsIn IsProper
        (λ (r : ThreadManager × S). IsWaiting Inv (record { thread_manager = r.0; memory = r.1 }))
        Waits (evaluate_thread_local_instructions manager fuel x.thread_manager t x.memory) _
        (local-IsWaiting x t w below) (λ r w'. w')

  remembering :
      {Holds Holds' : S → Type 0} (x : Executor) (s : S)
      → IsWaiting Holds x
      → Holds' s
      → IsWaiting Holds' (record x { memory = s })
  remembering x s w inv = record {
    ready = w.ready;
    numbered = w.numbered;
    count = w.count;
    memory = inv;
  }

  ask_thread-Waits :
      (rounds : ℕ) (x : Executor)
      → IsWaiting Inv x
      → input.left x.memory < rounds
      → EndsIn IsProper Waits (ask_thread manager input fuel rounds x)
  unfolding ask_thread Evaluated
  ask_thread-Waits zero x w h = absurd (omega arith)
  ask_thread-Waits (suc rounds) x w h =
      let t = (input.read_thread_id x.memory).1 in
      let x' : Executor = record x { memory = (input.read_thread_id x.memory).2 } in
      let w' : IsWaiting Inv x' = remembering x _ w (typed.keeps x.memory w.memory) in
      elim (Bool-cases (input.read_thread_id x.memory).0) [
        | inl e ↦ rw e w'
        | inr e ↦
            let fewer = reads.thread_id x.memory e (typed.numbers x.memory w.memory) in
            elim (Bool-cases (ltb t (length x.thread_manager))) [
              | inr f ↦ rw (e, f) (ask_thread-Waits rounds x' w' (omega (arith, fewer, h)))
              | inl f ↦
                  rw (e, f)
                    (>>=-EndsIn IsProper (Evaluated x') Waits
                      (evaluate_thread manager x'.thread_manager t x'.memory) _
                      (evaluate_thread-Evaluated x' t w' (ground (arith, f, w.count)))
                      (λ r k.
                        let x'' : Executor = record { thread_manager = r.1; memory = r.2 } in
                        elim (Bool-cases r.0) [
                          | inl q ↦ rw q (after_thread-Waits x'' t k.0 (ground (arith, f, w.count)))
                          | inr q ↦
                              let same : input.left r.2 ≡ input.left x'.memory =
                                ap input.left (k.1 q) in
                              rw q (ask_thread-Waits rounds x'' k.0 (omega (arith, same, fewer, h)))
                        ]))
            ]
      ]

  execute_thread-Waits :
      (x : Executor) → IsWaiting Inv x → EndsIn IsProper Waits (execute_thread manager input fuel x)
  unfolding execute_thread
  execute_thread-Waits x w =
      >>=-EndsIn IsProper Waits Waits
        (evaluate_local manager input fuel (indices 0 (length x.thread_manager)) x) _
        (evaluate_local-Waits (indices 0 (length x.thread_manager)) x w
          (All-indices 0 (length x.thread_manager) n (omega (arith, w.count))))
        (λ r w'. elim (Bool-cases r.0) [
          | inl e ↦ rw e w'
          | inr e ↦ rw e (ask_thread-Waits (suc (input.left r.1.memory)) r.1 w' (omega arith))
        ])

  update-Waits :
      (x : Executor)
      → IsWaiting Inv x
      → EndsIn IsProper Waits (execute_internal_memory_update manager input fuel x)
  unfolding execute_internal_memory_update
  update-Waits x w =
      >>=-EndsIn IsProper (λ (r : Bool × S). Inv r.1) Waits (manager.internal_update x.memory) _
        (behaves.internal_update x.memory w.memory) (λ r inv. remembering x r.1 w inv)

  or_else-Waits :
      (first second : Executor → Result (Bool × Executor)) (x : Executor)
      → EndsIn IsProper Waits (first x)
      → ((y : Executor) → IsWaiting Inv y → EndsIn IsProper Waits (second y))
      → EndsIn IsProper Waits (or_else manager input fuel first second x)
  or_else-Waits first second x h k =
      >>=-EndsIn IsProper Waits Waits (first x) _ h
        (λ r w. elim (Bool-cases r.0) [ inl e ↦ rw e w | inr e ↦ rw e (k r.1 w) ])

  execute_chosen-Waits :
      (first : Bool) (x : Executor)
      → IsWaiting Inv x
      → EndsIn IsProper Waits (execute_chosen manager input fuel first x)
  execute_chosen-Waits true x w =
      or_else-Waits (execute_thread manager input fuel)
        (execute_internal_memory_update manager input fuel) x (execute_thread-Waits x w)
        (λ y w'. update-Waits y w')
  execute_chosen-Waits false x w =
      or_else-Waits (execute_internal_memory_update manager input fuel)
        (execute_thread manager input fuel) x (update-Waits x w) (λ y w'. execute_thread-Waits y w')

  ask_operation-Waits :
      (rounds : ℕ) (x : Executor)
      → IsWaiting Asked x
      → input.left x.memory < rounds
      → EndsIn IsProper Waits (ask_operation manager input fuel rounds x)
  unfolding ask_operation
  ask_operation-Waits zero x w h = absurd (omega arith)
  ask_operation-Waits (suc rounds) x w h =
      let s = (input.read_operation x.memory).1 in
      let x' : Executor = record x { memory = s } in
      elim (Option-cases (input.read_operation x.memory).0) [
        | inl e ↦ rw (ask_operation, e) (remembering x s w (typed.ends x.memory w.memory e))
        | inr (c, e) ↦
            let fewer = reads.operation x.memory c e in
            elim (Option-cases (chosen c)) [
              | inl f ↦
                  rw (ask_operation, e, f)
                    (ask_operation-Waits rounds x'
                      (remembering x s w (typed.again x.memory c w.memory e f))
                      (omega (arith, fewer, h)))
              | inr (first, f) ↦
                  rw (ask_operation, e, f)
                    (execute_chosen-Waits first x'
                      (remembering x s w (typed.begins x.memory c first w.memory e f)))
            ]
      ]

  -- A step of the interactive executor, over a memory that keeps its invariant, ends with as many rounds
  -- of each loop as reads can succeed and one more, and leaves the threads valid and the invariant kept,
  -- or it ends at a proper fault. The programs jump forward only and have fewer instructions than the
  -- local loop has rounds, a read that succeeds takes something from the input, and what is typed where a
  -- thread is asked for is a number.
  pub execute-IsWaiting :
      (x : Executor)
      → IsWaiting Asked x
      → EndsIn IsProper (λ (r : Bool × Executor). IsWaiting Inv r.1) (execute manager input fuel x)
  unfolding execute
  execute-IsWaiting x w = ask_operation-Waits (suc (input.left x.memory)) x w (omega arith)
