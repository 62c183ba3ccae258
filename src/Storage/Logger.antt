-- ===== src/Storage/Logger.antt =====
-- src/Storage/StorageLogger.h: the calls that the storage managers make of their logger. A manager
-- keeps them as a list, the newest call first.
use weak_memory_models_mock.Base.{ℕ, Bool, Option, ℤ, List}
use weak_memory_models_mock.Storage.AccessMode.{AccessMode}

-- One call of `StorageLogger`, with its arguments. The calls of `info` by `propagate` under TSO and
-- PSO carry the arguments of their texts.
pub data Entry : Type 0 where
  load : (thread address : ℕ) → AccessMode → (result : ℤ) → Entry
  store : (thread address : ℕ) → (value : ℤ) → AccessMode → Entry
  compare_and_swap :
      (thread address : ℕ) → (expected : ℤ) → (real : Option ℤ) → (new : ℤ) → AccessMode → Entry
  fetch_and_increment :
      (thread address : ℕ) → (increment : ℤ) → AccessMode → (failure : Bool) → Entry
  fence : (thread : ℕ) → AccessMode → Entry
  tso_propagate : (thread address : ℕ) → (value : ℤ) → Entry
  pso_propagate : (thread address : ℕ) → (value : ℤ) → Entry

abbrev pub Log : Type 0
Log = List Entry

-- `enum class LogLevel`
pub data LogLevel : Type 0 where
  error warning info extra_info : LogLevel
