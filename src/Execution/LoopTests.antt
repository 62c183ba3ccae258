-- ===== src/Execution/LoopTests.antt =====
-- Runs to their end, and a thread up to its next call of the memory.
use weak_memory_models_mock.Base.{
  ℕ, zero, suc, subst, sym, ◌<◌, ◌≡◌, refl, Bool, true, false, some, pos, [], ◌∷◌, ok, err, Fault,
  get_elem?, EndsIn, IsProper, Shuffle, arith,
}
use weak_memory_models_mock.Program.{Program, Instruction, MemoryAccessMode, get_label_mapping}
use weak_memory_models_mock.Storage.Sc.{Sc}
use weak_memory_models_mock.Storage.Sc
use weak_memory_models_mock.Storage.Tso.{Tso}
use weak_memory_models_mock.Storage.Tso
use weak_memory_models_mock.Storage.Tso.Updates.{sequential}
use weak_memory_models_mock.Storage.Tso.Progress.{sequential-Covers}
use weak_memory_models_mock.Storage.Pso.{Pso}
use weak_memory_models_mock.Storage.Pso.Updates as PsoUpdates
use weak_memory_models_mock.Storage.Pso.Progress.{IsEmpty}
use weak_memory_models_mock.Execution.Thread.{Thread}
use weak_memory_models_mock.Execution.Threads.{
  all_threads_completed, evaluate_thread_local_instructions,
}
use weak_memory_models_mock.Execution.Random.{Draws, RandomExecutor, execute, execute_all}
use weak_memory_models_mock.Execution.Steps.{Behaves}
use weak_memory_models_mock.Execution.Runs.{IsRun}
use weak_memory_models_mock.Execution.Pso.{IsHeld, pso_manager, pso-Behaves, execute-IsFlushed}
use weak_memory_models_mock.Execution.TsoDrain.{execute_all-IsDrained}
use weak_memory_models_mock.Execution.TsoDrain
use weak_memory_models_mock.Execution.PsoDrain.{execute_all-IsFlushed}
use weak_memory_models_mock.Execution.PsoDrain
use weak_memory_models_mock.Execution.Local.{
  Stopped, evaluate_thread_local_instructions-Stopped, evaluate_thread_local_instructions-Spins,
}

-- Draws that never change the order, and say in turn which goes first.
abbrev in_order : Shuffle
in_order = record {
  Generator = Bool;
  shuffle = λ A g xs. (xs, g);
  count-shuffle = λ A g xs p. refl;
}

abbrev in_turn : Draws
in_turn = record { shuffle = in_order; draw_bit = λ g. (g, g) }

-- r0 = 3; if r0 goto 4; load RLX #r0 r1; and 4 is where the load is.
abbrev jumping : Program
jumping = record {
  program =
      Instruction.store_const_in_register 0 (pos 3)
      ∷ Instruction.goto 0 4
      ∷ Instruction.load MemoryAccessMode.relaxed 0 1
      ∷ [];
  label_mapping = (4, 2) ∷ [];
}

abbrev thread_at : Program → ℕ → Thread
thread_at program position = record {
  program = program;
  local_storage = pos 3 ∷ pos 0 ∷ [];
  current_instruction = position;
  id = 0;
}

abbrev completed : Thread
completed = thread_at jumping 3

abbrev empty_memory : Sc
empty_memory = record { storage = pos 0 ∷ []; log = [] }

jumping-IsForward :
    (i r label next : ℕ)
    → get_elem? jumping.program i ≡ some (Instruction.goto r label)
    → get_label_mapping jumping label ≡ ok next
    → i < next
jumping-IsForward zero r label next e f = absurd (cc)
jumping-IsForward (suc zero) r label next e f =
    let q : 4 ≡ label = cc in
    let f' : get_label_mapping jumping 4 ≡ ok next =
      subst (λ l. get_label_mapping jumping l ≡ ok next) (sym q) f in
    let n : 2 ≡ next = cc in omega (arith, n)
jumping-IsForward (suc (suc zero)) r label next e f = absurd (cc)
jumping-IsForward (suc (suc (suc i))) r label next e f = absurd (cc)

evaluate_thread_local_instructions-Stopped_example :
    EndsIn IsProper
      (Stopped Sc.manager (thread_at jumping 0 ∷ []) 0 (thread_at jumping 0) empty_memory)
      (evaluate_thread_local_instructions Sc.manager 4 (thread_at jumping 0 ∷ []) 0 empty_memory)
evaluate_thread_local_instructions-Stopped_example =
    evaluate_thread_local_instructions-Stopped Sc.manager 4 (thread_at jumping 0 ∷ []) 0
      (thread_at jumping 0) empty_memory refl
      (record { closed = (omega arith, tt); position = omega arith }) jumping-IsForward
      (omega arith)

-- 7: if r0 goto 7.
abbrev spinning : Program
spinning = record { program = Instruction.goto 0 7 ∷ []; label_mapping = (7, 0) ∷ [] }

evaluate_thread_local_instructions-Spins_example :
    evaluate_thread_local_instructions Sc.manager 1000 (thread_at spinning 0 ∷ []) 0 empty_memory
    ≡ err Fault.out_of_fuel
evaluate_thread_local_instructions-Spins_example =
    evaluate_thread_local_instructions-Spins Sc.manager 1000 (thread_at spinning 0 ∷ []) 0
      (thread_at spinning 0) empty_memory 0 7 (pos 3) refl refl refl refl refl refl

-- A thread that has completed, with two stores that are buffered.
abbrev tso_left : RandomExecutor in_turn (Tso.manager sequential)
tso_left = record {
  random_generator = true;
  thread_manager = completed ∷ [];
  memory = (
    record { next_thread_id = 0; max_thread_id = 0 },
    record {
      storage = pos 0 ∷ [];
      thread_buffers =
          (record { address = 0; value = pos 1 } ∷ record { address = 0; value = pos 2 } ∷ []) ∷ [];
      log = [];
    },
  );
}

execute_all-IsDrained_example :
    (x' : RandomExecutor in_turn (Tso.manager sequential)) × (execute_all in_turn
        (Tso.manager sequential)
        3
        tso_left
      ≡ ok (true, x'))
    × (TsoDrain.pending x'.memory ≡ 0)
    × (x'.thread_manager ≡ tso_left.thread_manager)
execute_all-IsDrained_example =
    execute_all-IsDrained sequential sequential-Covers in_turn tso_left refl (omega arith)

abbrev pso_memory : PsoUpdates.Random Bool × Pso
pso_memory = (
  record { pairs = (0, 0) ∷ []; next_index = 1; random_generator = true },
  record { storage = pos 0 ∷ []; thread_buffers = ((pos 1 ∷ pos 2 ∷ []) ∷ []) ∷ []; log = [] },
)

pso_memory-IsHeld : IsHeld 1 pso_memory
pso_memory-IsHeld = record {
  valid = (refl, tt);
  threads = refl;
  pairs = ((omega arith, omega arith), tt);
}

abbrev pso_left : RandomExecutor in_turn (pso_manager in_order)
pso_left = record { random_generator = true; thread_manager = completed ∷ []; memory = pso_memory }

execute_all-IsFlushed_example :
    (x' : RandomExecutor in_turn (pso_manager in_order)) × (execute_all in_turn
        (pso_manager in_order)
        3
        pso_left
      ≡ ok (true, x'))
    × (PsoDrain.pending x'.memory ≡ 0)
    × (x'.thread_manager ≡ pso_left.thread_manager)
execute_all-IsFlushed_example =
    execute_all-IsFlushed in_order 1 in_turn pso_left refl pso_memory-IsHeld

pso-Behaves_example : Behaves (pso_manager in_order) 1 (IsHeld 1)
pso-Behaves_example = pso-Behaves in_order 1

pso_left-IsRun : IsRun (pso_manager in_order) 1 (IsHeld 1) (pso-Behaves in_order 1) in_turn pso_left
pso_left-IsRun = record {
  threads = record {
    valid = (record { closed = (omega arith, tt); position = omega arith }, tt);
    numbered = (refl, tt);
  };
  count = refl;
  memory = pso_memory-IsHeld;
}

execute-IsFlushed_example :
    EndsIn IsProper
      (λ (r : Bool × RandomExecutor in_turn (pso_manager in_order)).
        IsRun (pso_manager in_order) 1 (IsHeld 1) (pso-Behaves in_order 1) in_turn r.1
        × (r.0 ≡ false
            → (all_threads_completed pso_left.thread_manager ≡ true)
              × ((t a : ℕ) → t < 1 → a < 1 → IsEmpty pso_left.memory.1 (t, a))))
      (execute in_turn (pso_manager in_order) pso_left)
execute-IsFlushed_example = execute-IsFlushed in_order 1 in_turn pso_left pso_left-IsRun
