-- ===== src/Storage/Output/Tests.antt =====
-- The lines of the logger and the texts of the storages at concrete states.
use weak_memory_models_mock.Base.{
  ◌≡◌, refl, none, some, pos, negsuc, false, [], ◌∷◌, codes, print_size, print_int, digits,
}
use weak_memory_models_mock.Storage.AccessMode.{AccessMode}
use weak_memory_models_mock.Storage.Logger.{Entry, LogLevel}
use weak_memory_models_mock.Storage.Output.{entry_text, info, written, write_tso, write_pso}
use weak_memory_models_mock.Storage.Tso.{Tso}
use weak_memory_models_mock.Storage.Pso.{Pso}

load_test :
    entry_text (Entry.load 0 3 AccessMode.acquire (negsuc 4)) ≡ codes "ACTION: t0#3: ACQ load (-5)"
unfolding entry_text print_size print_int digits
load_test = refl

swap_test :
    (entry_text (Entry.compare_and_swap 1 2 (pos 0) none (pos 7) AccessMode.release_acquire)
      ≡ codes "FAILED: t1#2: REL_ACQ if (?)==0 store 7")
    × (entry_text
          (Entry.compare_and_swap 1 2 (pos 0) (some (pos 0)) (pos 7) AccessMode.release_acquire)
        ≡ codes "ACTION: t1#2: REL_ACQ if (0)==0 store 7")
unfolding entry_text print_size print_int digits
swap_test = (refl, refl)

-- A fetch-and-increment that has succeeded is written as failed.
increment_test :
    entry_text (Entry.fetch_and_increment 1 2 (pos 12) AccessMode.relaxed false)
    ≡ codes "FAILED: t1#2: RLX +12"
unfolding entry_text print_size print_int digits
increment_test = refl

order_test :
    written LogLevel.info (Entry.fence 0 AccessMode.release ∷ Entry.tso_propagate 1 2 (pos 3) ∷ [])
    ≡ codes "ACTION: b1: propagate (#2->3)\nACTION: t0: REL fence\n"
unfolding entry_text written info print_size print_int digits
order_test = refl

abbrev tso : Tso
tso = record {
  storage = pos 0 ∷ pos 5 ∷ [];
  thread_buffers =
      (record { address = 1; value = pos 6 } ∷ record { address = 0; value = pos 7 } ∷ [])
      ∷ []
      ∷ [];
  log = [];
}

tso_test : write_tso tso ≡ codes "Shared storage: 0 5\nThread buffers:\nb0: #1->6 #0->7\nb1: \n"
unfolding print_size print_int digits
tso_test = refl

abbrev pso : Pso
pso = record {
  storage = pos 0 ∷ pos 5 ∷ [];
  thread_buffers = ((pos 1 ∷ pos 2 ∷ []) ∷ [] ∷ []) ∷ [];
  log = [];
}

pso_test : write_pso pso ≡ codes "Shared storage: 0 5\nThread buffers:\nb0: #0=[1 2] #1=[]\n"
unfolding print_size print_int digits
pso_test = refl
