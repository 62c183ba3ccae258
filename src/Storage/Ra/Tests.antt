-- ===== src/Storage/Ra/Tests.antt =====
-- Runs of the release-acquire manager at concrete states, and the theorems at them.
use weak_memory_models_mock.Base.{
  ℕ, ◌≡◌, refl, true, false, Option, some, ℤ, pos, [], ◌∷◌, ◌++◌, ok, arith, inl, inr, ltb,
  get_elem?, set, All, Ends,
}
use weak_memory_models_mock.Storage.AccessMode.{AccessMode}
use weak_memory_models_mock.Storage.Manager.{Operation, perform}
use weak_memory_models_mock.Storage.Ra.Timestamps.{View}
use weak_memory_models_mock.Storage.Ra.Messages.{
  Message, History, initial, push, from_timestamp, back,
}
use weak_memory_models_mock.Storage.Ra.Order.{ViewLe, Le, Under}
use weak_memory_models_mock.Storage.Ra.Invariant.{IsValid}
use weak_memory_models_mock.Storage.Ra.Safety.{Chooses, Continues}
use weak_memory_models_mock.Storage.Ra.Reads.{Reads, read-Reads}
use weak_memory_models_mock.Storage.Ra.Writes.{Logs, write_message-Publishes}
use weak_memory_models_mock.Storage.Ra.Fences.{sc_fence-Publishes}
use weak_memory_models_mock.Storage.Ra.Calls.{call-IsSafe}
use weak_memory_models_mock.Storage.Ra.Sorted.{
  IsSorted, push-IsSorted, from_timestamp_lem, push-append,
}
use weak_memory_models_mock.Storage.Ra.CleanUp.{clean_up_history-Unseen, apply_message-Unseen}
use weak_memory_models_mock.Storage.Ra.Start.{create-IsValid}
use weak_memory_models_mock.Storage.Ra.Random.{random-Chooses, interactive-Chooses}
use weak_memory_models_mock.Storage.Ra.Ticks.{ticks, counter}
use weak_memory_models_mock.Storage.Ra.Updates.{Console, random, interactive}
use weak_memory_models_mock.Storage.Ra.{
  Ra, Model, create, read, write_message, sc_fence, available_messages, clean_up_history,
  apply_message,
}
use weak_memory_models_mock.Storage.Ra

abbrev typed : Console ℕ
typed = record { Token = ℕ; as_size = some; as_double = some }

abbrev zeros : View ticks
zeros = 0 ∷ 0 ∷ []

abbrev published_message : Message ticks
published_message = record {
  location = 0;
  value = pos 42;
  timestamp = 1024;
  base_view = zeros;
  release_view = some (1024 ∷ 0 ∷ []);
  is_used_by_atomic_update = false;
}

abbrev zero_message : ℕ → Message ticks
zero_message location = initial ticks location 2

-- One location and that of the fences. Thread 0 has written 42 with a release store.
abbrev published : Ra ticks
published = record {
  storage_size = 1;
  thread_views = (1024 ∷ 0 ∷ []) ∷ zeros ∷ [];
  base_views = zeros ∷ zeros ∷ [];
  messages = (zero_message 0 ∷ published_message ∷ []) ∷ (zero_message 1 ∷ []) ∷ [];
  model = Model.ra;
  log = [];
}

zeros-Under : Under ticks zeros published.messages
zeros-Under = (inl refl, (inl refl, tt))

released-Under : Under ticks (1024 ∷ 0 ∷ []) published.messages
released-Under = (inr (inl refl), (inl refl, tt))

published-IsValid : IsValid ticks published
published-IsValid = record {
  bases = refl;
  size = refl;
  threads = (released-Under, (zeros-Under, tt));
  base = (zeros-Under, (zeros-Under, tt));
  logs = (
    ((zeros-Under, tt, omega arith), ((zeros-Under, released-Under, omega arith), tt)),
    (((zeros-Under, tt, omega arith), tt), tt),
  );
}

two_messages-IsSorted : IsSorted ticks (zero_message 0 ∷ published_message ∷ [])
two_messages-IsSorted = ((refl, tt), (tt, tt))

random_manager : Chooses ticks (random ticks counter)
random_manager = random-Chooses ticks counter

create-IsValid_example : IsValid ticks (create ticks 2 3 Model.sra)
create-IsValid_example = create-IsValid ticks 2 3 Model.sra

random-Chooses_example : Chooses ticks (random ticks counter)
random-Chooses_example = random-Chooses ticks counter

interactive-Chooses_test : Chooses ticks (interactive ticks typed)
interactive-Chooses_test = interactive-Chooses ticks typed

call-IsSafe_example :
    Ends
      (λ (r : Option ℤ × (ℕ × Ra ticks)). Continues ticks published r.1.1)
      (perform
        (Ra.manager ticks (random ticks counter))
        (Operation.fetch_and_increment 1 0 (pos 1) AccessMode.acquire)
        (0, published))
call-IsSafe_example =
    call-IsSafe ticks (random ticks counter) random_manager
      (Operation.fetch_and_increment 1 0 (pos 1) AccessMode.acquire) 0 published published-IsValid
      (omega arith) (omega arith)

read-Reads_example :
    Ends
      (λ (r : ℤ × ℕ × Ra ticks). Reads ticks published 1 0 true r.0 r.2)
      (read ticks (random ticks counter) 1 published 1 0 true false)
read-Reads_example =
    read-Reads ticks (random ticks counter) random_manager 1 published 1 0 true false
      published-IsValid (omega arith) (omega arith)

write_message-Publishes_example :
    (s' : Ra ticks) × (view new_view : View ticks) × (m : Message ticks) × (old log : History ticks)
    × (write_message ticks published 1 0 (pos 7) true 512 ≡ ok s')
    × IsValid ticks s'
    × (get_elem? published.thread_views 1 ≡ some view)
    × (new_view ≡ set view 0 512)
    × (get_elem? new_view 0 ≡ some 512)
    × (s'.thread_views ≡ set published.thread_views 1 new_view)
    × (get_elem? published.messages 0 ≡ some old)
    × (s'.messages ≡ set published.messages 0 log)
    × Logs ticks m old log
    × (m.timestamp ≡ 512)
    × (m.value ≡ pos 7)
    × (m.release_view ≡ some new_view)
write_message-Publishes_example =
    write_message-Publishes ticks published 1 0 (pos 7) true 512 published-IsValid (omega arith)
      (omega arith)

sc_fence-Publishes_example :
    (view : View ticks) × (s' : Ra ticks) × (get_elem? published.thread_views 0 ≡ some view)
    × (sc_fence ticks published 0 ≡ ok s')
    × IsValid ticks s'
    × All (ViewLe ticks view) s'.thread_views
sc_fence-Publishes_example = sc_fence-Publishes ticks published 0 published-IsValid (omega arith)

clean_up_history-Unseen_example :
    (s' : Ra ticks) × (clean_up_history ticks published 0 ≡ ok s')
    × (s'.thread_views ≡ published.thread_views)
    × ((t other : ℕ)
        → available_messages ticks s' t other ≡ available_messages ticks published t other)
clean_up_history-Unseen_example =
    clean_up_history-Unseen ticks published 0 published-IsValid (omega arith) (omega arith)

-- Thread 1 reads 42 by a relaxed load.
apply_message-Unseen_example :
    (s' : Ra ticks) × (apply_message ticks published 1 published_message false ≡ ok s')
    × (s'.thread_views ≡ published.thread_views)
    × ((r other : ℕ)
        → available_messages ticks s' r other ≡ available_messages ticks published r other)
apply_message-Unseen_example =
    apply_message-Unseen ticks published 1 published_message zeros published-IsValid refl
      (zeros-Under, released-Under, omega arith) (refl, (refl, tt))

-- So it can read 0 after 42.
still_available :
    available_messages ticks published 1 0 ≡ ok (zero_message 0 ∷ published_message ∷ [])
unfolding available_messages from_timestamp
still_available = refl

push-IsSorted_test : IsSorted ticks (
    push ticks
      (record published_message { timestamp = 512 })
      (zero_message 0 ∷ published_message ∷ []))
push-IsSorted_test =
    push-IsSorted ticks (record published_message { timestamp = 512 })
      (zero_message 0 ∷ published_message ∷ []) two_messages-IsSorted

from_timestamp_lem_example :
    (older : History ticks) × (zero_message 0 ∷ published_message ∷ []
      ≡ older ++ from_timestamp ticks 1000 (zero_message 0 ∷ published_message ∷ []))
    × All (λ (m : Message ticks). ltb m.timestamp 1000 ≡ true) older
    × All
        (λ (m : Message ticks). Le ticks 1000 m.timestamp)
        (from_timestamp ticks 1000 (zero_message 0 ∷ published_message ∷ []))
from_timestamp_lem_example =
    from_timestamp_lem ticks 1000 (zero_message 0 ∷ published_message ∷ []) two_messages-IsSorted

push-append_test :
    push ticks
      (record published_message { timestamp = 2048 })
      (zero_message 0 ∷ published_message ∷ [])
    ≡ (zero_message 0 ∷ published_message ∷ [])
      ++ (record published_message { timestamp = 2048 } ∷ [])
unfolding back
push-append_test =
    push-append ticks (record published_message { timestamp = 2048 }) published_message
      (zero_message 0 ∷ published_message ∷ []) two_messages-IsSorted refl refl
