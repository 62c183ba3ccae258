-- ===== src/Main/Whole.antt =====
-- The whole program: from the text of a file to the steps of its run.
use weak_memory_models_mock.Base.{
  ℕ, ◌≡◌, refl, Bool, true, List, [], length, length-replicate, All, All-replicate, EndsIn,
  EndsIn-map, IsProper, Bytes,
}
use weak_memory_models_mock.Program.{Program, IsClosed}
use weak_memory_models_mock.Program.Stream.{parse_from_string}
use weak_memory_models_mock.Program.Refusal.{Gives, Gives-map, parse_from_string-IsClosed}
use weak_memory_models_mock.Storage.Sc.{Sc}
use weak_memory_models_mock.Storage.Tso.{Tso}
use weak_memory_models_mock.Storage.Tso
use weak_memory_models_mock.Storage.Pso
use weak_memory_models_mock.Storage.Tso.Updates as TsoUpdates
use weak_memory_models_mock.Storage.Tso.Progress.{random-Covers}
use weak_memory_models_mock.Execution.Threads.{all_threads_completed}
use weak_memory_models_mock.Execution.Random.{RandomExecutor}
use weak_memory_models_mock.Execution.Steps.{Behaves}
use weak_memory_models_mock.Execution.Start.{create-IsRun, execute_all-IsLeft}
use weak_memory_models_mock.Execution.Memories.{sc-Behaves}
use weak_memory_models_mock.Execution.Tso.{tso-Behaves}
use weak_memory_models_mock.Execution.Pso.{IsHeld, pso-Behaves}
use weak_memory_models_mock.Main.{
  MemoryModel, tso, pso, sc, ra, sra, Machine, Memory, storage_manager, memory_for, random_executor,
  run_random,
}

-- A storage manager that keeps to what `threads` threads rely on, from its state on.
record Sound (threads : ℕ) (memory : Memory) : Type 1 where
  Inv : memory.State → Type 0
  behaves : Behaves memory.manager threads Inv
  holds : Inv memory.state

-- The models whose managers test every address.
abbrev pub ChecksAddresses : MemoryModel → Type 0
ChecksAddresses sc = Unit
ChecksAddresses tso = Unit
ChecksAddresses pso = Unit
ChecksAddresses ra = ⊥
ChecksAddresses sra = ⊥

module _ (machine : Machine) where
  open machine use {draws}

  storage_manager-Sound :
      (model : MemoryModel) (threads : ℕ)
      → ChecksAddresses model
      → Sound threads (storage_manager machine model threads)
  unfolding Tso.create Pso.create
  storage_manager-Sound sc threads h = record {
    Inv = λ (s : Sc). Unit;
    behaves = sc-Behaves threads;
    holds = tt;
  }
  storage_manager-Sound ra threads h = absurd h
  storage_manager-Sound sra threads h = absurd h
  storage_manager-Sound tso threads h = record {
    Inv = λ (x : TsoUpdates.Random draws.shuffle.Generator × Tso).
        length x.1.thread_buffers ≡ threads;
    behaves = tso-Behaves (TsoUpdates.random draws.shuffle) (random-Covers draws.shuffle) threads;
    holds = length-replicate threads [];
  }
  storage_manager-Sound pso threads h = record {
    Inv = IsHeld threads;
    behaves = pso-Behaves draws.shuffle threads;
    holds = record {
      valid = All-replicate (λ tb. length tb ≡ 10) threads _ refl;
      threads = length-replicate threads _;
      pairs = tt;
    };
  }

  run_random-Stops :
      (model : MemoryModel) (programs : List Program) (rounds : ℕ)
      → ChecksAddresses model
      → All IsClosed programs
      → EndsIn IsProper
          (λ (r : Bool × RandomExecutor draws (memory_for machine model programs).manager).
            r.0 ≡ true → all_threads_completed r.1.thread_manager ≡ true)
          (run_random machine model programs rounds)
  unfolding run_random random_executor
  run_random-Stops model programs rounds checks closed =
      let memory = memory_for machine model programs in
      let sound = storage_manager-Sound model (length programs) checks in
      EndsIn-map IsProper _ _ (run_random machine model programs rounds) (λ r h. h.1)
        (execute_all-IsLeft memory.manager (length programs) sound.Inv sound.behaves draws rounds
          (random_executor machine model programs)
          (create-IsRun memory.manager (length programs) sound.Inv sound.behaves draws
            machine.executor_seed programs memory.state 10 closed refl sound.holds))

  -- Where the text of a file is parsed, its programs run over the SC, the TSO or the PSO memory in the mode
  -- `rand` for any number of rounds without ever finding all threads blocked, reading outside a
  -- container unchecked or through a null pointer, or running out of fuel; if the loop of `main` ends,
  -- then all threads have completed. The run may end early at any other fault, such as that of an
  -- operation of the programs on an address, a register or a label that does not exist, or on numbers.
  pub parse_from_string-Runs :
      (model : MemoryModel) (input : Bytes) (rounds : ℕ)
      → ChecksAddresses model
      → Gives
          (λ programs.
            EndsIn IsProper
              (λ (r : Bool × RandomExecutor draws (memory_for machine model programs).manager).
                r.0 ≡ true → all_threads_completed r.1.thread_manager ≡ true)
              (run_random machine model programs rounds))
          (parse_from_string input)
  parse_from_string-Runs model input rounds checks =
      Gives-map _ _ (parse_from_string input)
        (λ programs h. run_random-Stops model programs rounds checks h.0)
        (parse_from_string-IsClosed input)
