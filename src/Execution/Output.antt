-- ===== src/Execution/Output.antt =====
-- `writeState` of the two executors in src/Execution/src/Executor.cpp. What `writeStorage` of the
-- memory writes is an argument; Storage/Output has it for the SC, the TSO and the PSO manager.
use weak_memory_models_mock.Base.{
  ℕ, suc, ◌≡◌, refl, pos, List, [], ◌∷◌, ◌++◌, Bytes, codes, print_size, print_int, digits,
}
use weak_memory_models_mock.Storage.Memory.{Storage}
use weak_memory_models_mock.Storage.Output.{write_sc}
use weak_memory_models_mock.Execution.Threads.{ThreadManager, get_thread_local_storages}

abbrev register_texts : Storage → Bytes
register_texts [] = []
register_texts (value ∷ storage) = print_int value ++ codes " " ++ register_texts storage

-- The lines "t{}: " of the registers, from a thread on.
abbrev storage_lines : ℕ → List Storage → Bytes
storage_lines thread [] = []
storage_lines thread (storage ∷ storages) =
    codes "t"
    ++ print_size thread
    ++ codes ": "
    ++ register_texts storage
    ++ codes "\n"
    ++ storage_lines (suc thread) storages

abbrev write_state : Bytes → ThreadManager → Bytes
write_state storage threads =
    storage
    ++ codes "Thread-local storages:\n"
    ++ storage_lines 0 (get_thread_local_storages threads)

abbrev threads : ThreadManager
threads =
    record {
      program = record { program = []; label_mapping = [] };
      local_storage = pos 4 ∷ pos 0 ∷ [];
      current_instruction = 0;
      id = 0;
    }
    ∷ []

write_state_test :
    write_state (write_sc (record { storage = pos 8 ∷ []; log = [] })) threads
    ≡ codes "Shared storage: 8\nThread-local storages:\nt0: 4 0 \n"
unfolding print_size print_int digits
write_state_test = refl
