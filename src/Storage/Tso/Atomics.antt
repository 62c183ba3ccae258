-- ===== src/Storage/Tso/Atomics.antt =====
-- One call under TSO, in terms of the sequentially consistent manager on the storage that the
-- buffered stores of the thread will make.
use weak_memory_models_mock.Base.{
  ℕ, ◌≡◌, some, ℤ, [], ◌∷◌, arith, length, set, get_elem?, All-get_elem?, ok, ◌>>=◌, at,
}
use weak_memory_models_mock.Storage.AccessMode.{AccessMode}
use weak_memory_models_mock.Storage.Logger.{Entry}
use weak_memory_models_mock.Storage.Sc.{Sc}
use weak_memory_models_mock.Storage.Sc
use weak_memory_models_mock.Storage.Tso.Buffer.{
  Buffer, InRange, drain, find-eq-latest, get_elem?-drain,
}
use weak_memory_models_mock.Storage.Tso.{Tso, load, compare_and_swap, fetch_and_increment, fence}
use weak_memory_models_mock.Storage.Tso.Flush.{IsValid, drain_log, flushed, flush_buffer-fifo}

-- The sequentially consistent state that thread `t` sees, whose buffer is `b`.
unfoldable pub seen : Tso → ℕ → Buffer → Sc
seen s t b = record { storage = drain b s.storage; log = drain_log t b s.log }

-- The sequentially consistent state `c` as a TSO state in which `t` has nothing buffered.
unfoldable pub settle : Tso → ℕ → Sc → Tso
settle s t c = record {
  storage = c.storage;
  thread_buffers = set s.thread_buffers t [];
  log = c.log;
}

module _ (s : Tso) (t : ℕ) (b : Buffer) (v : IsValid s)
    (here : get_elem? s.thread_buffers t ≡ some b) where
  -- In a valid state a load returns what a load from the storage would return after all stores that
  -- the thread has buffered reached it, an address out of range included; it changes only the log.
  pub load-eq-drained :
      (a : ℕ) (o : AccessMode)
      → load s t a o ≡ (
          at (drain b s.storage) a >>= λ value.
          ok (value, record s { log = Entry.load t a o value ∷ s.log }))
  unfolding load
  load-eq-drained a o = ground (
    arith,
    here,
    find-eq-latest b a,
    get_elem?-drain b s.storage a
        (All-get_elem? (InRange (length s.storage)) s.thread_buffers t v here),
  )

  -- In a valid state a compare-and-swap is that of the sequentially consistent manager on the storage
  -- after all stores that the thread has buffered reached it; its buffer is empty after, and no other
  -- buffer changes.
  pub compare_and_swap-eq-sc :
      (a : ℕ) (expected new : ℤ) (o : AccessMode)
      → compare_and_swap s t a expected new o
        ≡ (Sc.compare_and_swap (seen s t b) t a expected new o >>= λ c. ok (settle s t c))
  unfolding compare_and_swap Sc.compare_and_swap seen settle flushed
  compare_and_swap-eq-sc a expected new o = ground (arith, flush_buffer-fifo s t b v here)

  -- In a valid state a fetch-and-increment is that of the sequentially consistent manager on the
  -- storage after all stores that the thread has buffered reached it; its buffer is empty after, and
  -- no other buffer changes.
  pub fetch_and_increment-eq-sc :
      (a : ℕ) (increment : ℤ) (o : AccessMode)
      → fetch_and_increment s t a increment o
        ≡ (Sc.fetch_and_increment (seen s t b) t a increment o >>= λ c. ok (settle s t c))
  unfolding fetch_and_increment Sc.fetch_and_increment seen settle flushed
  fetch_and_increment-eq-sc a increment o = ground (arith, flush_buffer-fifo s t b v here)

  -- In a valid state a fence lets all stores that the thread has buffered reach the storage, and
  -- changes nothing else but the log.
  pub fence-eq-sc :
      (o : AccessMode) → fence s t o ≡ (Sc.fence (seen s t b) t o >>= λ c. ok (settle s t c))
  unfolding fence Sc.fence seen settle flushed
  fence-eq-sc o = ground (arith, flush_buffer-fifo s t b v here)
