-- ===== src/Storage/Pso/Flush.antt =====
-- The loops of `flushBuffer` under PSO.
use weak_memory_models_mock.Base.{
  ℕ, ◌<◌, zero, suc, ◌≡◌, true, false, some, ℤ, [], ◌∷◌, arith, length, set, get_elem?,
  get_elem?-set_self, get_elem?-lt, set-set, set-get_elem?, length-set, All, ok, ◌>>=◌,
}
use weak_memory_models_mock.Storage.Logger.{Entry, Log}
use weak_memory_models_mock.Storage.Pso.Buffers.{AddressBuffer, ThreadBuffer}
use weak_memory_models_mock.Storage.Pso.Buffers
use weak_memory_models_mock.Storage.Pso.Overlay.{drain}
use weak_memory_models_mock.Storage.Pso.{Pso, propagate, flush_loop, flush_buffer}

-- Every thread has a buffer for each address of the storage.
abbrev pub IsValid : Pso → Type 0
IsValid s = All (λ tb. length tb ≡ length s.storage) s.thread_buffers

-- The log after the stores of a buffer have reached the storage.
unfoldable pub drain_log : ℕ → ℕ → AddressBuffer → Log → Log
drain_log t a [] l = l
drain_log t a (v ∷ b) l = drain_log t a b (Entry.pso_propagate t a v ∷ l)

-- The state in which thread `t`, with the buffers `tb`, has nothing buffered for the address `a`,
-- and its stores `b` to `a` are in the storage.
unfoldable pub flushed : Pso → ℕ → ℕ → ThreadBuffer → AddressBuffer → Pso
flushed s t a tb b = record s {
  storage = drain a b s.storage;
  thread_buffers = set s.thread_buffers t (set tb a []);
  log = drain_log t a b s.log;
}

-- One step of thread `t`.
abbrev pub propagated : Pso → ℕ → ℕ → ThreadBuffer → ℤ → AddressBuffer → Pso
propagated s t a tb v b = record s {
  storage = set s.storage a v;
  thread_buffers = set s.thread_buffers t (set tb a b);
  log = Entry.pso_propagate t a v ∷ s.log;
}

module _ (s : Pso) (t a : ℕ) (tb : ThreadBuffer)
    (here : get_elem? s.thread_buffers t ≡ some tb) where
  pub propagate-nil : get_elem? tb a ≡ some [] → propagate s t a ≡ ok (false, s)
  unfolding propagate Buffers.pop_at Buffers.pop
  propagate-nil e = rw (here, e, set-get_elem? tb a e, set-get_elem? s.thread_buffers t here)

  pub propagate-cons :
      (v : ℤ) (b : AddressBuffer)
      → get_elem? tb a ≡ some (v ∷ b)
      → a < length s.storage
      → propagate s t a ≡ ok (true, propagated s t a tb v b)
  unfolding propagate Buffers.pop_at Buffers.pop
  propagate-cons v b e h = let (c, d) = get_elem?-lt s.storage a h in rw (here, e, d)

flushed-propagated :
    (s : Pso) (t a : ℕ) (tb : ThreadBuffer) (v : ℤ) (b : AddressBuffer)
    → flushed (propagated s t a tb v b) t a (set tb a b) b ≡ flushed s t a tb (v ∷ b)
unfolding flushed drain drain_log
flushed-propagated s t a tb v b =
    rw (set-set tb a b [], set-set s.thread_buffers t (set tb a b) (set tb a []))

flushed-nil :
    (s : Pso) (t a : ℕ) (tb : ThreadBuffer)
    → get_elem? s.thread_buffers t ≡ some tb
    → get_elem? tb a ≡ some []
    → flushed s t a tb [] ≡ s
unfolding flushed drain drain_log
flushed-nil s t a tb here e = rw (set-get_elem? tb a e, set-get_elem? s.thread_buffers t here)

-- With a round for each buffered store and one more, the loop ends with the buffer drained.
flush_loop_lem :
    (b : AddressBuffer) (fuel : ℕ) (s : Pso) (t a : ℕ) (tb : ThreadBuffer)
    → length b < fuel
    → get_elem? s.thread_buffers t ≡ some tb
    → get_elem? tb a ≡ some b
    → a < length s.storage
    → flush_loop fuel s t a ≡ ok (flushed s t a tb b)
unfolding flush_loop
flush_loop_lem b zero s t a tb f here e h = elim f [ ]
flush_loop_lem [] (suc fuel) s t a tb f here e h =
    rw (propagate-nil s t a tb here e, flushed-nil s t a tb here e)
flush_loop_lem (v ∷ b) (suc fuel) s t a tb f here e h =
    rw (propagate-cons s t a tb here v b e h, ← flushed-propagated s t a tb v b)
      (flush_loop_lem b fuel (propagated s t a tb v b) t a (set tb a b) (omega arith)
        (get_elem?-set_self s.thread_buffers t (set tb a b) here) (get_elem?-set_self tb a b e)
        (rw (length-set s.storage a v) h))

-- A flush of one address, which the storage has and the thread has a buffer for, always succeeds:
-- the stores that the thread buffered for it reach the storage in the order in which they were made;
-- nothing else is flushed.
pub flush_buffer-address :
    (s : Pso) (t a : ℕ) (tb : ThreadBuffer) (b : AddressBuffer)
    → get_elem? s.thread_buffers t ≡ some tb
    → get_elem? tb a ≡ some b
    → a < length s.storage
    → flush_buffer s t a ≡ ok (flushed s t a tb b)
unfolding flush_buffer Buffers.get_buffer
flush_buffer-address s t a tb b here e h =
    rw (here, e, ◌>>=◌) (flush_loop_lem b (suc (length b)) s t a tb (omega arith) here e h)
