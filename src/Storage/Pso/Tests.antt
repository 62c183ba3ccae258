-- ===== src/Storage/Pso/Tests.antt =====
-- Runs of the PSO storage manager at concrete states, and the theorems at them.
use weak_memory_models_mock.Base.{
  ◌+◌, ◌*◌, ◌≡◌, refl, Bool, pos, List, [], ◌∷◌, arith, ok, ◌>>=◌, at, Shuffle, set, length,
  replicate, All, EndsIn, Fault, negsuc, ℤ, Option,
}
use weak_memory_models_mock.Storage.AccessMode.{AccessMode}
use weak_memory_models_mock.Storage.Logger.{Entry}
use weak_memory_models_mock.Storage.Manager.{Operation, perform}
use weak_memory_models_mock.Storage.Solo.{Event, run, run_sc}
use weak_memory_models_mock.Storage.Sc.{Sc}
use weak_memory_models_mock.Storage.Pso.Buffers.{ThreadBuffer}
use weak_memory_models_mock.Storage.Pso.Overlay.{overlay, newest}
use weak_memory_models_mock.Storage.Pso.{Pso, load, fence, flush_buffer, internal_update}
use weak_memory_models_mock.Storage.Pso
use weak_memory_models_mock.Storage.Pso.Flush.{IsValid, flushed, flush_buffer-address}
use weak_memory_models_mock.Storage.Pso.Fence.{fence-flushes}
use weak_memory_models_mock.Storage.Pso.Solo.{Sees, propagates, load-eq-overlay, run_pso-eq-run_sc}
use weak_memory_models_mock.Storage.Pso.Updates.{
  Sequential, sequential, Random, random, random_rounds,
}
use weak_memory_models_mock.Storage.Pso.Random.{pso_random_progress}
use weak_memory_models_mock.Storage.Pso.Progress.{
  Updates, InRange, pso_sequential_progress, random-reset_grows,
}
use weak_memory_models_mock.Storage.Pso.Refines.{Refines, manager-Refines}
use weak_memory_models_mock.Storage.Turns.{Turn, call, update, interleave, Returned}
use weak_memory_models_mock.Storage.Pso.Interleaving.{IsReady, interleave-Supplied}
use weak_memory_models_mock.Storage.Pso.Buffers

abbrev relaxed : AccessMode
relaxed = AccessMode.relaxed

-- Thread 0 has buffered 41 and 42 for address 0 and 7 for address 1; thread 1 has 9 for address 1.
abbrev first_buffers : ThreadBuffer
first_buffers = (pos 41 ∷ pos 42 ∷ []) ∷ (pos 7 ∷ []) ∷ [] ∷ []

abbrev buffered : Pso
buffered = record {
  storage = pos 0 ∷ pos 0 ∷ pos 5 ∷ [];
  thread_buffers = first_buffers ∷ ([] ∷ (pos 9 ∷ []) ∷ [] ∷ []) ∷ [];
  log = [];
}

buffered-IsValid : IsValid buffered
buffered-IsValid = omega arith

abbrev start : Sequential
start = record { next_thread_id = 0; max_thread_id = 0; next_address = 0; max_address = 0 }

flush_buffer-address_test :
    flush_buffer buffered 0 0 ≡ ok (flushed buffered 0 0 first_buffers (pos 41 ∷ pos 42 ∷ []))
flush_buffer-address_test =
    flush_buffer-address buffered 0 0 first_buffers (pos 41 ∷ pos 42 ∷ []) refl refl (omega arith)

fence-flushes_example :
    (s' : Pso) × (fence buffered 0 relaxed ≡ ok s')
    × (s'.storage ≡ overlay first_buffers buffered.storage)
    × (s'.thread_buffers ≡ set buffered.thread_buffers 0 (replicate 3 []))
fence-flushes_example = fence-flushes buffered 0 relaxed first_buffers buffered-IsValid refl

abbrev swap : Operation
swap = Operation.compare_and_swap 0 0 (pos 42) (pos 43) relaxed

manager-Refines_example :
    EndsIn
      (λ fault. fault ≡ Fault.overflow)
      (Refines buffered swap first_buffers)
      (perform (Pso.manager sequential (λ m s. 9)) swap (start, buffered))
manager-Refines_example =
    manager-Refines sequential (λ m s. 9) start buffered swap first_buffers buffered-IsValid refl
      (omega arith)

load-eq-overlay_test : load buffered 0 1 relaxed ≡ (
    at (overlay first_buffers buffered.storage) 1 >>= λ value.
    ok (value, record buffered { log = Entry.load 0 1 relaxed value ∷ [] }))
load-eq-overlay_test = load-eq-overlay buffered 0 first_buffers 1 relaxed refl refl

-- The store to address 1 may reach the storage before the older ones to address 0.
abbrev calls : List Event
calls =
    Event.update 1
    ∷ Event.call (Operation.load 0 0 relaxed)
    ∷ Event.call (Operation.store 0 2 (pos 6) relaxed)
    ∷ Event.call (Operation.fetch_and_increment 0 2 (pos 1) relaxed)
    ∷ Event.update 0
    ∷ Event.call (Operation.load 0 2 relaxed)
    ∷ []

abbrev drained : Sc
drained = record { storage = pos 42 ∷ pos 7 ∷ pos 5 ∷ []; log = [] }

buffered-Sees : Sees 0 buffered drained
unfolding overlay newest Buffers.last
buffered-Sees = record {
  buffers = first_buffers;
  here = refl;
  valid = buffered-IsValid;
  same = refl;
}

run_pso-eq-run_sc_example :
    run (Pso.manager sequential (λ m s. 7)) propagates 0 calls (start, buffered)
    ≡ run_sc calls drained
run_pso-eq-run_sc_example =
    run_pso-eq-run_sc sequential (λ m s. 7) 0 3 calls start buffered drained buffered-Sees refl
      (omega arith)

pso_sequential_progress_example :
    (r : Bool) × (m' : Sequential) × (s' : Pso) × (internal_update sequential 7 start buffered
      ≡ ok (r, m', s'))
    × Updates buffered (r, s')
pso_sequential_progress_example =
    pso_sequential_progress 7 start buffered buffered-IsValid (omega arith) (omega arith)

-- A generator that leaves every order as it is.
abbrev in_order : Shuffle
in_order = record {
  Generator = Unit {0};
  shuffle = λ A g xs. (xs, g);
  count-shuffle = λ A g xs p. refl;
}

-- After one reset, with six buffers; the second reset makes twelve pairs of them.
abbrev after_reset : Random (Unit {0})
after_reset = record {
  pairs = (0, 0) ∷ (0, 1) ∷ (0, 2) ∷ (1, 0) ∷ (1, 1) ∷ (1, 2) ∷ [];
  next_index = 0;
  random_generator = tt;
}

random-reset_grows_example : length ((random in_order).reset after_reset buffered).pairs ≡ 6 + 2 * 3
random-reset_grows_example = random-reset_grows in_order after_reset buffered

after_reset-InRange : All (InRange buffered) after_reset.pairs
after_reset-InRange = omega arith

pso_random_progress_example :
    (r : Bool) × (m' : Random (Unit {0})) × (s' : Pso) × (internal_update
        (random in_order)
        (random_rounds after_reset buffered)
        after_reset
        buffered
      ≡ ok (r, m', s'))
    × Updates buffered (r, s')
    × All (InRange buffered) m'.pairs
pso_random_progress_example =
    pso_random_progress in_order after_reset buffered buffered-IsValid after_reset-InRange

-- A property of values: that they are not negative.
abbrev IsNatural : ℤ → Type 0
IsNatural (pos n) = Unit
IsNatural (negsuc n) = ⊥

abbrev turns : List Turn
turns =
    call (Operation.load 1 0 relaxed)
    ∷ update
    ∷ call (Operation.store 1 0 (pos 5) relaxed)
    ∷ call swap
    ∷ update
    ∷ call (Operation.load 0 1 relaxed)
    ∷ []

ready : IsReady IsNatural 2 3 (after_reset, buffered)
ready = record {
  supplied = record {
    count = refl;
    cells = refl;
    wide = (refl, (refl, tt));
    memory = (tt, (tt, (tt, tt)));
    queues = (((tt, (tt, tt)), ((tt, tt), (tt, tt))), ((tt, ((tt, tt), (tt, tt))), tt));
  };
  pairs = omega arith;
}

interleave-Supplied_example :
    EndsIn
      (λ fault. fault ≡ Fault.overflow)
      (λ (r : List (Option ℤ) × (Random (Unit {0}) × Pso)).
        All (Returned IsNatural) r.0 × IsReady IsNatural 2 3 r.1)
      (interleave (Pso.manager (random in_order) random_rounds) turns (after_reset, buffered))
interleave-Supplied_example =
    interleave-Supplied IsNatural in_order 2 3 turns (after_reset, buffered) ready
      (
        (omega arith, omega arith, tt),
        (
          tt,
          (
            (omega arith, omega arith, tt),
            ((omega arith, omega arith, tt), (tt, ((omega arith, omega arith, tt), tt))),
          ),
        ),
      )
