-- ===== src/Storage/Tso/Tests.antt =====
-- Runs of the TSO storage manager at concrete states, and the theorems at them.
use weak_memory_models_mock.Base.{
  ℕ, ◌≡◌, ◌≢◌, refl, Bool, true, none, some, pos, List, [], ◌∷◌, arith, ok, ◌>>=◌, at,
  if◌then◌else◌, ◌==◌, Shuffle, get_elem?, add32,
}
use weak_memory_models_mock.Storage.AccessMode.{AccessMode}
use weak_memory_models_mock.Storage.Logger.{Entry}
use weak_memory_models_mock.Storage.Manager.{Operation, perform}
use weak_memory_models_mock.Storage.Solo.{Event, run, run_sc}
use weak_memory_models_mock.Storage.Sc.{Sc}
use weak_memory_models_mock.Storage.Sc
use weak_memory_models_mock.Storage.Tso.Buffer.{Buffer, StoreInstruction, drain, find, find_if}
use weak_memory_models_mock.Storage.Tso.{
  Tso, load, store, compare_and_swap, fetch_and_increment, fence, propagate, flush_buffer,
  flush_loop, internal_update, update_loop,
}
use weak_memory_models_mock.Storage.Tso
use weak_memory_models_mock.Storage.Tso.Flush.{IsValid, flushed, flush_buffer-fifo}
use weak_memory_models_mock.Storage.Tso.Atomics.{
  seen, settle, load-eq-drained, compare_and_swap-eq-sc, fetch_and_increment-eq-sc, fence-eq-sc,
}
use weak_memory_models_mock.Storage.Tso.Solo.{Sees, propagates, run_tso-eq-run_sc}
use weak_memory_models_mock.Storage.Tso.Calls.{Completes, perform-Completes}
use weak_memory_models_mock.Storage.Tso.Updates.{Sequential, sequential, Random, random}
use weak_memory_models_mock.Storage.Tso.Progress.{
  Updates, tso_sequential_progress, tso_random_progress,
}
use weak_memory_models_mock.Storage.Tso.Visibility.{loads, store_visibility, propagate_visibility}

abbrev relaxed : AccessMode
relaxed = AccessMode.relaxed

abbrev put : ℕ → ℕ → StoreInstruction
put a v = record { address = a; value = pos v }

-- Thread 0 has buffered two stores to address 0 and one to address 1; thread 1 one to address 1.
abbrev first_buffer : Buffer
first_buffer = put 0 41 ∷ put 1 7 ∷ put 0 42 ∷ []

abbrev buffered : Tso
buffered = record {
  storage = pos 0 ∷ pos 0 ∷ pos 5 ∷ [];
  thread_buffers = first_buffer ∷ (put 1 9 ∷ []) ∷ [];
  log = [];
}

buffered-IsValid : IsValid buffered
buffered-IsValid = omega arith

abbrev start : Sequential
start = record { next_thread_id = 0; max_thread_id = 0 }

-- "Load from a previously stored value should return the stored value".
own_store : loads buffered 0 0 relaxed ≡ ok (pos 42)
unfolding load find find_if
own_store = refl

-- "Load by another thread doesn't see the value before buffer is flushed".
other_store : loads buffered 1 0 relaxed ≡ ok (pos 0)
unfolding load find find_if
other_store = refl

flush_buffer-fifo_example : flush_buffer buffered 0 ≡ ok (flushed buffered 0 first_buffer)
flush_buffer-fifo_example = flush_buffer-fifo buffered 0 first_buffer buffered-IsValid refl

load-eq-drained_test : load buffered 0 0 relaxed ≡ (
    at (drain first_buffer buffered.storage) 0 >>= λ value.
    ok (value, record buffered { log = Entry.load 0 0 relaxed value ∷ [] }))
load-eq-drained_test = load-eq-drained buffered 0 first_buffer buffered-IsValid refl 0 relaxed

compare_and_swap-eq-sc_test : compare_and_swap buffered 0 0 (pos 42) (pos 43) relaxed ≡ (
    Sc.compare_and_swap (seen buffered 0 first_buffer) 0 0 (pos 42) (pos 43) relaxed >>= λ c.
    ok (settle buffered 0 c))
compare_and_swap-eq-sc_test =
    compare_and_swap-eq-sc buffered 0 first_buffer buffered-IsValid refl 0 (pos 42) (pos 43) relaxed

fetch_and_increment-eq-sc_test : fetch_and_increment buffered 0 1 (pos 3) relaxed ≡ (
    Sc.fetch_and_increment (seen buffered 0 first_buffer) 0 1 (pos 3) relaxed >>= λ c.
    ok (settle buffered 0 c))
fetch_and_increment-eq-sc_test =
    fetch_and_increment-eq-sc buffered 0 first_buffer buffered-IsValid refl 1 (pos 3) relaxed

fence-eq-sc_test :
    fence buffered 0 relaxed
    ≡ (Sc.fence (seen buffered 0 first_buffer) 0 relaxed >>= λ c. ok (settle buffered 0 c))
fence-eq-sc_test = fence-eq-sc buffered 0 first_buffer buffered-IsValid refl relaxed

abbrev calls : List Event
calls =
    Event.call (Operation.load 0 0 relaxed)
    ∷ Event.call (Operation.store 0 2 (pos 6) relaxed)
    ∷ Event.update 0
    ∷ Event.call (Operation.fetch_and_increment 0 2 (pos 1) relaxed)
    ∷ Event.call (Operation.load 0 2 relaxed)
    ∷ []

abbrev drained : Sc
drained = record { storage = pos 42 ∷ pos 7 ∷ pos 5 ∷ []; log = [] }

buffered-Sees : Sees 0 buffered drained
unfolding drain
buffered-Sees = record { buffer = first_buffer; here = refl; valid = buffered-IsValid; same = refl }

run_tso-eq-run_sc_example :
    run (Tso.manager sequential) propagates 0 calls (start, buffered) ≡ run_sc calls drained
run_tso-eq-run_sc_example =
    run_tso-eq-run_sc sequential 0 3 calls start buffered drained buffered-Sees refl (omega arith)

drained_run : run_sc calls drained ≡ ok (some (pos 42) ∷ none ∷ none ∷ some (pos 7) ∷ [])
unfolding run_sc Sc.load Sc.store Sc.fetch_and_increment add32
drained_run = refl

perform-Completes_example : Completes buffered (
    perform
      (Tso.manager sequential)
      (Operation.fetch_and_increment 0 1 (pos 3) relaxed)
      (start, buffered))
perform-Completes_example =
    perform-Completes sequential start buffered (Operation.fetch_and_increment 0 1 (pos 3) relaxed)
      buffered-IsValid (omega arith) (omega arith)

tso_sequential_progress_test :
    (r : Bool) × (m' : Sequential) × (s' : Tso) × (internal_update sequential start buffered
      ≡ ok (r, m', s'))
    × Updates buffered (r, s')
tso_sequential_progress_test = tso_sequential_progress start buffered buffered-IsValid

-- A generator that leaves every order as it is.
abbrev in_order : Shuffle
in_order = record {
  Generator = Unit {0};
  shuffle = λ A g xs. (xs, g);
  count-shuffle = λ A g xs p. refl;
}

abbrev random_start : Random (Unit {0})
random_start = record { thread_ids = []; next_thread_id_index = 0; random_generator = tt }

tso_random_progress_example :
    (r : Bool) × (m' : Random (Unit {0})) × (s' : Tso) × (internal_update
        (random in_order)
        random_start
        buffered
      ≡ ok (r, m', s'))
    × Updates buffered (r, s')
tso_random_progress_example = tso_random_progress in_order random_start buffered buffered-IsValid

store_visibility_example :
    (s' : Tso) × (store buffered 1 0 (pos 8) relaxed ≡ ok s')
    × ((x : ℕ) → loads s' 1 x relaxed ≡ (if 0 == x then ok (pos 8) else loads buffered 1 x relaxed))
    × ((u x : ℕ) → u ≢ 1 → loads s' u x relaxed ≡ loads buffered u x relaxed)
store_visibility_example = store_visibility buffered 1 0 (pos 8) relaxed relaxed (omega arith)

propagate_visibility_example :
    (s' : Tso) × (propagate buffered 0 ≡ ok (true, s'))
    × ((x : ℕ) → loads s' 0 x relaxed ≡ loads buffered 0 x relaxed)
    × ((u x : ℕ) (c : Buffer)
        → u ≢ 0
        → get_elem? buffered.thread_buffers u ≡ some c
        → loads s' u x relaxed ≡ elim (find c x) [
          | some w ↦ ok w
          | none ↦ if 0 == x then ok (pos 41) else loads buffered u x relaxed
        ])
propagate_visibility_example =
    propagate_visibility buffered 0 (put 0 41) (put 1 7 ∷ put 0 42 ∷ []) relaxed refl (omega arith)
