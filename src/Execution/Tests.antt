-- ===== src/Execution/Tests.antt =====
-- A run of two threads over the SC memory, and the memories that a run can have.
use weak_memory_models_mock.Base.{
  ℕ, ◌<◌, get_elem?, some, length, ◌≡◌, refl, Bool, true, false, not, [], ◌∷◌, ok, pos, arith,
  EndsIn, IsProper,
}
use weak_memory_models_mock.Program.{Program, Instruction, BinaryOperation, MemoryAccessMode}
use weak_memory_models_mock.Storage.Sc.{Sc}
use weak_memory_models_mock.Storage.Sc
use weak_memory_models_mock.Execution.Thread.{Thread, is_finished, evaluate_instruction}
use weak_memory_models_mock.Execution.Threads.{all_threads_completed}
use weak_memory_models_mock.Execution.Random.{Draws, RandomExecutor, execute}
use weak_memory_models_mock.Execution.Steps.{
  Behaves, IsValid, Follows, evaluate_instruction-Follows,
}
use weak_memory_models_mock.Execution.Runs.{IsRun, execute-Stops}
use weak_memory_models_mock.Execution.Memories.{sc-Behaves}
use weak_memory_models_mock.Execution.Tso.{tso-Behaves, execute-IsDrained}
use weak_memory_models_mock.Storage.Tso.{Tso}
use weak_memory_models_mock.Storage.Tso
use weak_memory_models_mock.Storage.Tso.Updates.{Sequential, sequential}
use weak_memory_models_mock.Storage.Tso.Progress.{sequential-Covers}

-- r0 = 1; store SEQ_CST #r1 r0; if r0 goto 7, where 7 is the end of the program.
abbrev writer : Program
writer = record {
  program =
      Instruction.store_const_in_register 0 (pos 1)
      ∷ Instruction.store MemoryAccessMode.sequential_consistency 1 0
      ∷ Instruction.goto 0 7
      ∷ [];
  label_mapping = (7, 3) ∷ [];
}

-- load SEQ_CST #r0 r1; r2 = r1 / r0, which divides by zero.
abbrev reader : Program
reader = record {
  program =
      Instruction.load MemoryAccessMode.sequential_consistency 0 1
      ∷ Instruction.store_expr_in_register 2 1 BinaryOperation.division 0
      ∷ [];
  label_mapping = [];
}

abbrev writing : Thread
writing = record {
  program = writer;
  local_storage = pos 1 ∷ pos 0 ∷ [];
  current_instruction = 1;
  id = 0;
}

abbrev reading : Thread
reading = record {
  program = reader;
  local_storage = pos 0 ∷ pos 0 ∷ pos 0 ∷ [];
  current_instruction = 0;
  id = 1;
}

abbrev memory : Sc
memory = record { storage = pos 0 ∷ []; log = [] }

writing-IsValid : IsValid writing
writing-IsValid = record { closed = (omega arith, tt); position = omega arith }

reading-IsValid : IsValid reading
reading-IsValid = record { closed = tt; position = omega arith }

sc-Behaves_test : Behaves Sc.manager 2 (λ (s : Sc). Unit)
sc-Behaves_test = sc-Behaves 2

evaluate_instruction-Follows_example :
    EndsIn IsProper
      (λ (r : Bool × Thread × Sc).
        (r.0 ≡ not (is_finished writing))
        × Follows writing r.1
        × Unit
        × (is_finished writing ≡ true → (r.1 ≡ writing) × (r.2 ≡ memory)))
      (evaluate_instruction Sc.manager writing memory)
evaluate_instruction-Follows_example =
    evaluate_instruction-Follows Sc.manager 2 (λ (s : Sc). Unit) (sc-Behaves 2) writing memory
      writing-IsValid (omega arith) tt

-- Draws that never change the order, and say in turn which goes first.
abbrev in_turn : Draws
in_turn = record {
  shuffle = record {
    Generator = Bool;
    shuffle = λ A g xs. (xs, g);
    count-shuffle = λ A g xs p. refl;
  };
  draw_bit = λ g. (g, not g);
}

abbrev running : RandomExecutor in_turn Sc.manager
running = record {
  random_generator = true;
  thread_manager = writing ∷ reading ∷ [];
  memory = memory;
}

running-IsRun : IsRun Sc.manager 2 (λ (s : Sc). Unit) (sc-Behaves 2) in_turn running
running-IsRun = record {
  threads = record {
    valid = (writing-IsValid, (reading-IsValid, tt));
    numbered = (refl, (refl, tt));
  };
  count = refl;
  memory = tt;
}

execute-Stops_example :
    EndsIn IsProper
      (λ (r : Bool × RandomExecutor in_turn Sc.manager).
        IsRun Sc.manager 2 (λ (s : Sc). Unit) (sc-Behaves 2) in_turn r.1
        × (r.0 ≡ false
            → (all_threads_completed running.thread_manager ≡ true)
              × (r.1.thread_manager ≡ running.thread_manager)
              × (Sc.manager.internal_update running.memory ≡ ok (false, r.1.memory))))
      (execute in_turn Sc.manager running)
execute-Stops_example =
    execute-Stops Sc.manager 2 (λ (s : Sc). Unit) (sc-Behaves 2) in_turn running running-IsRun

tso-Behaves_example :
    Behaves (Tso.manager sequential) 2 (λ (x : Sequential × Tso). length x.1.thread_buffers ≡ 2)
tso-Behaves_example = tso-Behaves sequential sequential-Covers 2

abbrev tso_memory : Sequential × Tso
tso_memory = (
  record { next_thread_id = 0; max_thread_id = 0 },
  record { storage = pos 0 ∷ []; thread_buffers = [] ∷ [] ∷ []; log = [] },
)

abbrev tso_running : RandomExecutor in_turn (Tso.manager sequential)
tso_running = record {
  random_generator = true;
  thread_manager = writing ∷ reading ∷ [];
  memory = tso_memory;
}

abbrev HasTwo : Sequential × Tso → Type 0
HasTwo x = length x.1.thread_buffers ≡ 2

tso_running-IsRun :
    IsRun
      (Tso.manager sequential)
      2
      HasTwo
      (tso-Behaves sequential sequential-Covers 2)
      in_turn
      tso_running
tso_running-IsRun = record {
  threads = record {
    valid = (writing-IsValid, (reading-IsValid, tt));
    numbered = (refl, (refl, tt));
  };
  count = refl;
  memory = refl;
}

execute-IsDrained_example :
    EndsIn IsProper
      (λ (r : Bool × RandomExecutor in_turn (Tso.manager sequential)).
        IsRun
          (Tso.manager sequential)
          2
          HasTwo
          (tso-Behaves sequential sequential-Covers 2)
          in_turn
          r.1
        × (r.0 ≡ false
            → (all_threads_completed tso_running.thread_manager ≡ true)
              × ((t : ℕ) → t < 2 → get_elem? tso_running.memory.1.thread_buffers t ≡ some [])))
      (execute in_turn (Tso.manager sequential) tso_running)
execute-IsDrained_example =
    execute-IsDrained sequential sequential-Covers 2 in_turn tso_running tso_running-IsRun
