-- ===== src/Storage/Manager.antt =====
-- src/Storage/StorageManager.h: what every storage manager offers to the threads.
use weak_memory_models_mock.Base.{ℕ, Bool, Option, none, some, ℤ, Result, ok, ◌>>=◌, ◌<◌}
use weak_memory_models_mock.Storage.AccessMode.{AccessMode}

-- `class StorageManagerInterface` over the state `S` of a manager
pub record StorageManager (S : Type 0) : Type 0 where
  pub load : S → ℕ → ℕ → AccessMode → Result (ℤ × S)
  pub store : S → ℕ → ℕ → ℤ → AccessMode → Result S
  pub compare_and_swap : S → ℕ → ℕ → ℤ → ℤ → AccessMode → Result S
  pub fetch_and_increment : S → ℕ → ℕ → ℤ → AccessMode → Result S
  pub fence : S → ℕ → AccessMode → Result S
  pub internal_update : S → Result (Bool × S)

-- A call of one of the five memory operations, with its arguments.
pub data Operation : Type 0 where
  load : (thread address : ℕ) → AccessMode → Operation
  store : (thread address : ℕ) → (value : ℤ) → AccessMode → Operation
  compare_and_swap : (thread address : ℕ) → (expected new : ℤ) → AccessMode → Operation
  fetch_and_increment : (thread address : ℕ) → (increment : ℤ) → AccessMode → Operation
  fence : (thread : ℕ) → AccessMode → Operation

module _ {S : Type 0} where
  abbrev pub silent : Result S → Result (Option ℤ × S)
  silent r = r >>= λ s. ok (none, s)

  -- The dispatch of a call; only a load returns a value.
  abbrev pub perform : StorageManager S → Operation → S → Result (Option ℤ × S)
  perform m (Operation.load t a o) s = m.load s t a o >>= λ r. ok (some r.0, r.1)
  perform m (Operation.store t a v o) s = silent (m.store s t a v o)
  perform m (Operation.compare_and_swap t a e v o) s = silent (m.compare_and_swap s t a e v o)
  perform m (Operation.fetch_and_increment t a i o) s = silent (m.fetch_and_increment s t a i o)
  perform m (Operation.fence t o) s = silent (m.fence s t o)

-- The thread that makes a call.
abbrev pub thread_of : Operation → ℕ
thread_of (Operation.load t a o) = t
thread_of (Operation.store t a v o) = t
thread_of (Operation.compare_and_swap t a e v o) = t
thread_of (Operation.fetch_and_increment t a i o) = t
thread_of (Operation.fence t o) = t

-- The call is to an address below `n`.
abbrev pub Addresses : ℕ → Operation → Type 0
Addresses n (Operation.load t a o) = a < n
Addresses n (Operation.store t a v o) = a < n
Addresses n (Operation.compare_and_swap t a e v o) = a < n
Addresses n (Operation.fetch_and_increment t a i o) = a < n
Addresses n (Operation.fence t o) = Unit
