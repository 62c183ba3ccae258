-- ===== src/Storage/Pso.antt =====
-- `class PartialStoreOrderStorageManager` of src/Storage/PartialStoreOrderStorageManager.h and
-- src/Storage/src/PartialStoreOrderStorageManager.cpp: a FIFO buffer of stores for each thread and
-- address.
pub mod Buffers
pub mod Overlay
pub mod Flush
pub mod Solo
pub mod Fence
pub mod Updates
pub mod Table
pub mod Progress
pub mod Random
pub mod Machine
pub mod Commits
pub mod Refines
pub mod Supplies
pub mod Interleaving
mod Tests
use weak_memory_models_mock.Base.{
  ℕ, zero, suc, Bool, true, false, Option, none, some, ℤ, ◌==ℤ◌, add32, List, [], ◌∷◌, Result, ok,
  err, Fault, ◌>>=◌, at, set_at, length, replicate, if◌then◌else◌, indices,
}
use weak_memory_models_mock.Storage.AccessMode.{AccessMode}
use weak_memory_models_mock.Storage.Logger.{Entry, Log}
use weak_memory_models_mock.Storage.Memory.{Storage}
use weak_memory_models_mock.Storage.Memory
use weak_memory_models_mock.Storage.Manager.{StorageManager}
use Buffers.{AddressBuffer, ThreadBuffer}

-- `m_internalUpdateManager` is an argument of `internal_update`, the one function that uses it.
pub record Pso : Type 0 where
  pub storage : Storage
  pub thread_buffers : List ThreadBuffer
  pub log : Log

unfoldable pub create : ℕ → ℕ → Pso
create storage_size threads = record {
  storage = Memory.create storage_size;
  thread_buffers = replicate threads (Buffers.create storage_size);
  log = [];
}

abbrev pub logged : Pso → Entry → Pso
logged s e = record s { log = e ∷ s.log }

unfoldable pub load : Pso → ℕ → ℕ → AccessMode → Result (ℤ × Pso)
load s t a o = do
  buffers ← at s.thread_buffers t
  found ← Buffers.find buffers a
  value ← elim found [ some v ↦ ok v | none ↦ Memory.load s.storage a ]
  ok (value, logged s (Entry.load t a o value))

unfoldable pub store : Pso → ℕ → ℕ → ℤ → AccessMode → Result Pso
store s t a v o = do
  let s' = logged s (Entry.store t a v o)
  buffers ← at s'.thread_buffers t
  pushed ← Buffers.push_at buffers a v
  thread_buffers ← set_at s'.thread_buffers t pushed
  ok (record s' { thread_buffers = thread_buffers })

-- The body of `propagate` once a value is popped, and when there is none.
propagate_popped : Pso → ℕ → ℕ → Option ℤ → Result (Bool × Pso)
propagate_popped s t a none = ok (false, s)
propagate_popped s t a (some v) = do
  storage ← Memory.store s.storage a v
  ok (true, logged (record s { storage = storage }) (Entry.pso_propagate t a v))

unfoldable pub propagate : Pso → ℕ → ℕ → Result (Bool × Pso)
unfolding propagate_popped
propagate s t a = do
  buffers ← at s.thread_buffers t
  popped ← Buffers.pop_at buffers a
  thread_buffers ← set_at s.thread_buffers t popped.1
  propagate_popped (record s { thread_buffers = thread_buffers }) t a popped.0

-- `while (propagate(threadId, address)) {}`
unfoldable pub flush_loop : ℕ → Pso → ℕ → ℕ → Result Pso
flush_loop zero s t a = err Fault.out_of_fuel
flush_loop (suc fuel) s t a =
    propagate s t a >>= λ r. let rest = flush_loop fuel r.1 t a in if r.0 then rest else ok r.1

-- A buffer of n stores is empty after n rounds, and one more round sees that.
unfoldable pub flush_buffer : Pso → ℕ → ℕ → Result Pso
flush_buffer s t a = do
  buffers ← at s.thread_buffers t
  buffer ← Buffers.get_buffer buffers a
  flush_loop (suc (length buffer)) s t a

unfoldable pub compare_and_swap : Pso → ℕ → ℕ → ℤ → ℤ → AccessMode → Result Pso
compare_and_swap s t a expected new o = do
  s₁ ← flush_buffer s t a
  value ← Memory.load s₁.storage a
  let s₂ = logged s₁ (Entry.compare_and_swap t a expected (some value) new o)
  (if value ==ℤ expected
      then (Memory.store s₂.storage a new >>= λ storage. ok (record s₂ { storage = storage }))
      else ok s₂)

unfoldable pub fetch_and_increment : Pso → ℕ → ℕ → ℤ → AccessMode → Result Pso
fetch_and_increment s t a increment o = do
  s₁ ← flush_buffer s t a
  let s₂ = logged s₁ (Entry.fetch_and_increment t a increment o false)
  value ← Memory.load s₂.storage a
  sum ← add32 value increment
  storage ← Memory.store s₂.storage a sum
  ok (record s₂ { storage = storage })

-- The loop of `fence` over the addresses that are left.
unfoldable pub flush_all : List ℕ → Pso → ℕ → Result Pso
flush_all [] s t = ok s
flush_all (a ∷ rest) s t = flush_buffer s t a >>= λ s'. flush_all rest s' t

unfoldable pub fence : Pso → ℕ → AccessMode → Result Pso
fence s t o = do
  s₁ ← flush_all (indices 0 (Memory.size s.storage)) s t
  ok (logged s₁ (Entry.fence t o))

-- `class InternalUpdateManager` over its state `M`
pub record UpdateManager (M : Type 0) : Type 0 where
  pub reset : M → Pso → M
  pub get_thread_id_and_address : M → Option (ℕ × ℕ) × M

module _ {M : Type 0} (u : UpdateManager M) where
  -- `while (auto pair = getThreadIdAndAddress()) { if (propagate(…)) return true; }`
  unfoldable pub update_loop : ℕ → M → Pso → Result (Bool × M × Pso)
  update_loop zero m s = err Fault.out_of_fuel
  update_loop (suc fuel) m s =
      let (next, m') = u.get_thread_id_and_address m in
      elim next [
        | none ↦ ok (false, m', s)
        | some pair ↦ propagate s pair.0 pair.1 >>= λ r.
            let rest = update_loop fuel m' r.1 in if r.0 then ok (true, m', r.1) else rest
      ]

  -- How many rounds there are depends on the update manager, so they are an argument.
  unfoldable pub internal_update : ℕ → M → Pso → Result (Bool × M × Pso)
  internal_update fuel m s = update_loop fuel (u.reset m s) s

  abbrev pub manager : (M → Pso → ℕ) → StorageManager (M × Pso)
  manager rounds = record {
    load = λ s t a o. load s.1 t a o >>= λ r. ok (r.0, (s.0, r.1));
    store = λ s t a v o. store s.1 t a v o >>= λ r. ok (s.0, r);
    compare_and_swap = λ s t a e v o. compare_and_swap s.1 t a e v o >>= λ r. ok (s.0, r);
    fetch_and_increment = λ s t a i o. fetch_and_increment s.1 t a i o >>= λ r. ok (s.0, r);
    fence = λ s t o. fence s.1 t o >>= λ r. ok (s.0, r);
    internal_update = λ s. internal_update (rounds s.0 s.1) s.0 s.1 >>= λ r. ok (r.0, (r.1, r.2));
  }
