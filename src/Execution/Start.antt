-- ===== src/Execution/Start.antt =====
-- A run from its start: the threads of parsed programs, and the loop of `main` over the steps.
use weak_memory_models_mock.Base.{
  ℕ, zero, suc, ◌≡◌, refl, ap, ◌∙◌, Bool, true, false, List, [], ◌∷◌, ok, length, All, EndsIn,
  >>=-EndsIn, IsProper, arith, if◌then◌else◌,
}
use weak_memory_models_mock.Program.{Program, IsClosed}
use weak_memory_models_mock.Storage.Manager.{StorageManager}
use weak_memory_models_mock.Execution.Threads.{create_from, create, all_threads_completed}
use weak_memory_models_mock.Execution.Thread
use weak_memory_models_mock.Execution.Random.{Draws, RandomExecutor, execute, execute_all}
use weak_memory_models_mock.Execution.Random
use weak_memory_models_mock.Execution.Steps.{Behaves, IsValid}
use weak_memory_models_mock.Execution.Numbers.{Numbered}
use weak_memory_models_mock.Execution.Runs.{IsRun, execute-Stops}

create_from-Numbered :
    (id : ℕ) (programs : List Program) (size : ℕ) → Numbered id (create_from id programs size)
unfolding create_from Thread.create
create_from-Numbered id [] size = tt
create_from-Numbered id (p ∷ programs) size = (refl, create_from-Numbered (suc id) programs size)

create_from-IsValid :
    (id : ℕ) (programs : List Program) (size : ℕ)
    → All IsClosed programs
    → All IsValid (create_from id programs size)
unfolding create_from Thread.create
create_from-IsValid id [] size h = tt
create_from-IsValid id (p ∷ programs) size h = (
  record { closed = h.0; position = omega arith },
  create_from-IsValid (suc id) programs size h.1,
)

pub length-create_from :
    (id : ℕ) (programs : List Program) (size : ℕ)
    → length (create_from id programs size) ≡ length programs
unfolding create_from
length-create_from id [] size = refl
length-create_from id (p ∷ programs) size = ap suc (length-create_from (suc id) programs size)

module _ {S : Type 0} (manager : StorageManager S) (n : ℕ) (Inv : S → Type 0)
    (behaves : Behaves manager n Inv) (draws : Draws) where
  -- What is started with closed programs, and with a memory in its invariant, is a run.
  pub create-IsRun :
      (seed : draws.shuffle.Generator) (programs : List Program) (memory : S) (size : ℕ)
      → All IsClosed programs
      → length programs ≡ n
      → Inv memory
      → IsRun manager n Inv behaves draws (Random.create draws manager seed programs memory size)
  unfolding Random.create create
  create-IsRun seed programs memory size closed count inv = record {
    threads = record {
      valid = create_from-IsValid 0 programs size closed;
      numbered = create_from-Numbered 0 programs size;
    };
    count = length-create_from 0 programs size ∙ count;
    memory = inv;
  }

  -- What is left of a run after some rounds: a run, and if the loop has ended then all threads have
  -- completed.
  abbrev pub IsLeft : Bool × RandomExecutor draws manager → Type 0
  IsLeft r =
      IsRun manager n Inv behaves draws r.1
      × (r.0 ≡ true → all_threads_completed r.1.thread_manager ≡ true)

  pub execute_all-IsLeft :
      (rounds : ℕ) (x : RandomExecutor draws manager)
      → IsRun manager n Inv behaves draws x
      → EndsIn IsProper IsLeft (execute_all draws manager rounds x)
  unfolding execute_all
  execute_all-IsLeft zero x run = (run, λ e. absurd (cc))
  execute_all-IsLeft (suc rounds) x run =
      >>=-EndsIn IsProper _ IsLeft (execute draws manager x) _
        (execute-Stops manager n Inv behaves draws x run)
        (λ r h.
          step r h.0 (λ e. ap all_threads_completed ((h.1 e).1) ∙ (h.1 e).0)
            (execute_all-IsLeft rounds r.1 h.0))
    where
      step :
          (r : Bool × RandomExecutor draws manager)
          → IsRun manager n Inv behaves draws r.1
          → (r.0 ≡ false → all_threads_completed r.1.thread_manager ≡ true)
          → EndsIn IsProper IsLeft (execute_all draws manager rounds r.1)
          → EndsIn IsProper IsLeft (
              let rest = execute_all draws manager rounds r.1 in
              if r.0 then rest else ok (true, r.1))
      step (true, x') run' completed rest = rest
      step (false, x') run' completed rest = (run', λ e. completed refl)
