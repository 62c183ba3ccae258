-- ===== src/Main/Tests.antt =====
-- A small program from its text to its run.
use weak_memory_models_mock.Base.{
  ◌≡◌, refl, Bool, true, some, none, [], EndsIn, IsProper, Bytes, codes,
}
use weak_memory_models_mock.Program.Refusal.{Gives}
use weak_memory_models_mock.Program.Stream.{parse_from_string}
use weak_memory_models_mock.Storage.Ra.Ticks.{ticks, counter}
use weak_memory_models_mock.Execution.Random.{Draws, RandomExecutor}
use weak_memory_models_mock.Execution.Threads.{all_threads_completed}
use weak_memory_models_mock.Main.{
  tso, pso, Machine, memory_for, run_random, parse_memory_model, parse_execution_mode, random,
}
use weak_memory_models_mock.Main.Whole.{parse_from_string-Runs}

-- Draws that never change the order, and let the threads go first.
abbrev threads_first : Draws
threads_first = record {
  shuffle = record {
    Generator = Bool;
    shuffle = λ A g xs. (xs, g);
    count-shuffle = λ A g xs p. refl;
  };
  draw_bit = λ g. (true, g);
}

abbrev machine : Machine
machine = record {
  draws = threads_first;
  uniform = counter;
  timestamps = ticks;
  memory_seed = true;
  message_seed = 0;
  executor_seed = true;
}

-- Two threads that store to address 0 and load from it.
abbrev input : Bytes
input = codes "0 = 1\nstore RLX #1 0\nMAKETHREAD\nload RLX #1 2\n"

parse_from_string-Runs_example :
    Gives
      (λ programs.
        EndsIn IsProper
          (λ (r : Bool × RandomExecutor threads_first (memory_for machine pso programs).manager).
            r.0 ≡ true → all_threads_completed r.1.thread_manager ≡ true)
          (run_random machine pso programs 12))
      (parse_from_string input)
parse_from_string-Runs_example = parse_from_string-Runs machine pso input 12 tt

arguments_tests :
    (parse_memory_model (codes "tso") ≡ some tso)
    × (parse_memory_model (codes "TSO") ≡ none)
    × (parse_execution_mode (codes "rand") ≡ some random)
    × (parse_execution_mode [] ≡ none)
unfolding parse_memory_model parse_execution_mode
arguments_tests = (refl, refl, refl, refl)
