-- ===== src/Main.antt =====
-- src/main.cpp: the choice of the memory and of the mode, and the run of the random executor.
pub mod Whole
mod Tests
use weak_memory_models_mock.Base.{
  ℕ, Bool, true, false, Option, none, some, List, [], ◌∷◌, Result, length, same_text, Bytes, codes,
  if◌then◌else◌,
}
use weak_memory_models_mock.Program.{Program}
use weak_memory_models_mock.Storage.Manager.{StorageManager}
use weak_memory_models_mock.Storage.Sc.{Sc}
use weak_memory_models_mock.Storage.Sc
use weak_memory_models_mock.Storage.Tso.{Tso}
use weak_memory_models_mock.Storage.Tso
use weak_memory_models_mock.Storage.Tso.Updates as TsoUpdates
use weak_memory_models_mock.Storage.Pso.{Pso}
use weak_memory_models_mock.Storage.Pso
use weak_memory_models_mock.Storage.Pso.Updates as PsoUpdates
use weak_memory_models_mock.Storage.Ra.Timestamps.{Timestamps}
use weak_memory_models_mock.Storage.Ra.{Ra, Model}
use weak_memory_models_mock.Storage.Ra
use weak_memory_models_mock.Storage.Ra.Updates.{Uniform}
use weak_memory_models_mock.Storage.Ra.Updates
use weak_memory_models_mock.Execution.Random.{Draws, RandomExecutor, execute_all}
use weak_memory_models_mock.Execution.Random

pub data MemoryModel : Type 0 where
  tso pso sc ra sra : MemoryModel

-- `none` is the exception "Unknown memory model".
unfoldable pub parse_memory_model : Bytes → Option MemoryModel
parse_memory_model model =
    if same_text model (codes "tso")
    then some tso
    else if same_text model (codes "pso")
    then some pso
    else if same_text model (codes "sc")
    then some sc
    else if same_text model (codes "ra")
    then some ra
    else if same_text model (codes "sra")
    then some sra
    else none

pub data ExecutionMode : Type 0 where
  random interactive enumerate : ExecutionMode

-- `none` is the exception "Unknown execution mode".
unfoldable pub parse_execution_mode : Bytes → Option ExecutionMode
parse_execution_mode mode =
    if same_text mode (codes "rand")
    then some random
    else if same_text mode (codes "interact")
    then some interactive
    else if same_text mode (codes "enum")
    then some enumerate
    else none

-- What a run draws from: the orders and bits, the positions of messages, `double`, and the
-- values of `std::random_device`.
pub record Machine : Type 1 where
  pub draws : Draws
  pub uniform : Uniform
  pub timestamps : Timestamps
  pub memory_seed : draws.shuffle.Generator
  pub message_seed : uniform.Generator
  pub executor_seed : draws.shuffle.Generator

-- A storage manager with its state.
pub record Memory : Type 1 where
  pub State : Type 0
  pub manager : StorageManager State
  pub state : State

module _ (machine : Machine) where
  open machine use {draws, uniform, timestamps, memory_seed, message_seed, executor_seed}

  abbrev release_acquire_manager : ℕ → Model → Memory
  release_acquire_manager threads model = record {
    State = uniform.Generator × Ra timestamps;
    manager = Ra.manager timestamps (Updates.random timestamps uniform);
    state = (message_seed, Ra.create timestamps 10 threads model);
  }

  -- The `switch` on the model, with the random update managers.
  abbrev pub storage_manager : MemoryModel → ℕ → Memory
  storage_manager tso threads = record {
    State = TsoUpdates.Random draws.shuffle.Generator × Tso;
    manager = Tso.manager (TsoUpdates.random draws.shuffle);
    state = (
      record { thread_ids = []; next_thread_id_index = 0; random_generator = memory_seed },
      Tso.create 10 threads,
    );
  }
  storage_manager pso threads = record {
    State = PsoUpdates.Random draws.shuffle.Generator × Pso;
    manager = Pso.manager (PsoUpdates.random draws.shuffle) PsoUpdates.random_rounds;
    state = (
      record { pairs = []; next_index = 0; random_generator = memory_seed },
      Pso.create 10 threads,
    );
  }
  storage_manager sc threads = record { State = Sc; manager = Sc.manager; state = Sc.create 10 }
  storage_manager ra threads = release_acquire_manager threads Model.ra
  storage_manager sra threads = release_acquire_manager threads Model.sra

  abbrev pub memory_for : MemoryModel → List Program → Memory
  memory_for model programs = storage_manager model (length programs)

  -- What `main` starts in the mode `rand`.
  unfoldable pub random_executor :
      (model : MemoryModel) (programs : List Program)
      → RandomExecutor draws (memory_for model programs).manager
  random_executor model programs =
      Random.create draws (memory_for model programs).manager executor_seed programs
        (memory_for model programs).state 10

  -- So many rounds of the loop of `main` in the mode `rand`, and whether it has ended.
  unfoldable pub run_random :
      (model : MemoryModel) (programs : List Program)
      → ℕ
      → Result (Bool × RandomExecutor draws (memory_for model programs).manager)
  run_random model programs rounds =
      execute_all draws (memory_for model programs).manager rounds (random_executor model programs)
