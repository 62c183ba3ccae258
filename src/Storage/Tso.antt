-- ===== src/Storage/Tso.antt =====
-- `class TotalStoreOrderStorageManager` of src/Storage/TotalStoreOrderStorageManager.h and
-- src/Storage/src/TotalStoreOrderStorageManager.cpp: a FIFO buffer of stores for each thread.
pub mod Buffer
pub mod Flush
pub mod Atomics
pub mod Solo
pub mod Calls
pub mod Updates
pub mod Progress
pub mod Visibility
pub mod Machine
pub mod Refines
pub mod Supplies
pub mod Interleaving
mod Tests
mod TurnTests
use weak_memory_models_mock.Base.{
  ℕ, zero, suc, Bool, true, false, Option, none, some, ℤ, ◌==ℤ◌, add32, List, [], ◌∷◌, Result, ok,
  err, Fault, ◌>>=◌, at, set_at, length, replicate, if◌then◌else◌,
}
use weak_memory_models_mock.Storage.AccessMode.{AccessMode}
use weak_memory_models_mock.Storage.Logger.{Entry, Log}
use weak_memory_models_mock.Storage.Memory.{Storage}
use weak_memory_models_mock.Storage.Memory
use weak_memory_models_mock.Storage.Manager.{StorageManager}
use Buffer.{StoreInstruction}

-- `m_internalUpdateManager` is an argument of `internal_update`, the one function that uses it.
pub record Tso : Type 0 where
  pub storage : Storage
  pub thread_buffers : List Buffer.Buffer
  pub log : Log

unfoldable pub create : ℕ → ℕ → Tso
create storage_size threads = record {
  storage = Memory.create storage_size;
  thread_buffers = replicate threads [];
  log = [];
}

abbrev pub logged : Tso → Entry → Tso
logged s e = record s { log = e ∷ s.log }

unfoldable pub load : Tso → ℕ → ℕ → AccessMode → Result (ℤ × Tso)
load s t a o = do
  buffer ← at s.thread_buffers t
  value ← elim (Buffer.find buffer a) [ some v ↦ ok v | none ↦ Memory.load s.storage a ]
  ok (value, logged s (Entry.load t a o value))

unfoldable pub store : Tso → ℕ → ℕ → ℤ → AccessMode → Result Tso
store s t a v o = do
  let s' = logged s (Entry.store t a v o)
  buffer ← at s'.thread_buffers t
  buffers ← set_at s'.thread_buffers t (Buffer.push buffer (record { address = a; value = v }))
  ok (record s' { thread_buffers = buffers })

-- The body of `propagate` once an instruction is popped, and when there is none.
unfoldable pub propagate_popped : Tso → ℕ → Option StoreInstruction → Result (Bool × Tso)
propagate_popped s t none = ok (false, s)
propagate_popped s t (some i) = do
  storage ← Memory.store s.storage i.address i.value
  ok (true, logged (record s { storage = storage }) (Entry.tso_propagate t i.address i.value))

unfoldable pub propagate : Tso → ℕ → Result (Bool × Tso)
unfolding propagate_popped
propagate s t = do
  buffer ← at s.thread_buffers t
  let popped = Buffer.pop buffer
  buffers ← set_at s.thread_buffers t popped.1
  propagate_popped (record s { thread_buffers = buffers }) t popped.0

-- `while (propagate(threadId)) {}`
unfoldable pub flush_loop : ℕ → Tso → ℕ → Result Tso
flush_loop zero s t = err Fault.out_of_fuel
flush_loop (suc fuel) s t =
    propagate s t >>= λ r. let rest = flush_loop fuel r.1 t in if r.0 then rest else ok r.1

-- A buffer of n stores is empty after n rounds, and one more round sees that.
unfoldable pub flush_buffer : Tso → ℕ → Result Tso
flush_buffer s t = do buffer ← at s.thread_buffers t; flush_loop (suc (length buffer)) s t

unfoldable pub compare_and_swap : Tso → ℕ → ℕ → ℤ → ℤ → AccessMode → Result Tso
compare_and_swap s t a expected new o = do
  s₁ ← flush_buffer s t
  value ← Memory.load s₁.storage a
  let s₂ = logged s₁ (Entry.compare_and_swap t a expected (some value) new o)
  (if value ==ℤ expected
      then (Memory.store s₂.storage a new >>= λ storage. ok (record s₂ { storage = storage }))
      else ok s₂)

unfoldable pub fetch_and_increment : Tso → ℕ → ℕ → ℤ → AccessMode → Result Tso
fetch_and_increment s t a increment o = do
  s₁ ← flush_buffer s t
  let s₂ = logged s₁ (Entry.fetch_and_increment t a increment o false)
  value ← Memory.load s₂.storage a
  sum ← add32 value increment
  storage ← Memory.store s₂.storage a sum
  ok (record s₂ { storage = storage })

unfoldable pub fence : Tso → ℕ → AccessMode → Result Tso
fence s t o = do s₁ ← flush_buffer s t; ok (logged s₁ (Entry.fence t o))

-- `class InternalUpdateManager` over its state `M`
pub record UpdateManager (M : Type 0) : Type 0 where
  pub reset : M → Tso → M
  pub get_thread_id : M → Option ℕ × M

module _ {M : Type 0} (u : UpdateManager M) where
  -- `while (auto threadId = getThreadId()) { if (propagate(*threadId)) return true; }`
  unfoldable pub update_loop : ℕ → M → Tso → Result (Bool × M × Tso)
  update_loop zero m s = err Fault.out_of_fuel
  update_loop (suc fuel) m s =
      let (next, m') = u.get_thread_id m in
      elim next [
        | none ↦ ok (false, m', s)
        | some t ↦ propagate s t >>= λ r.
            let rest = update_loop fuel m' r.1 in if r.0 then ok (true, m', r.1) else rest
      ]

  -- One round for each thread, and one in which the update manager has no thread left.
  unfoldable pub internal_update : M → Tso → Result (Bool × M × Tso)
  internal_update m s = update_loop (suc (length s.thread_buffers)) (u.reset m s) s

  abbrev pub manager : StorageManager (M × Tso)
  manager = record {
    load = λ s t a o. load s.1 t a o >>= λ r. ok (r.0, (s.0, r.1));
    store = λ s t a v o. store s.1 t a v o >>= λ r. ok (s.0, r);
    compare_and_swap = λ s t a e v o. compare_and_swap s.1 t a e v o >>= λ r. ok (s.0, r);
    fetch_and_increment = λ s t a i o. fetch_and_increment s.1 t a i o >>= λ r. ok (s.0, r);
    fence = λ s t o. fence s.1 t o >>= λ r. ok (s.0, r);
    internal_update = λ s. internal_update s.0 s.1 >>= λ r. ok (r.0, (r.1, r.2));
  }
