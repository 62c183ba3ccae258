-- ===== src/Storage/Tso/Flush.antt =====
-- The loops of `flushBuffer` under TSO.
use weak_memory_models_mock.Base.{
  ℕ, ◌<◌, zero, suc, ◌≡◌, true, false, some, ℤ, [], ◌∷◌, arith, length, set, get_elem?,
  get_elem?-set_self, get_elem?-lt, set-set, set-get_elem?, length-set, All, All-get_elem?, ok,
  ◌>>=◌,
}
use weak_memory_models_mock.Storage.Logger.{Entry, Log}
use weak_memory_models_mock.Storage.Memory.{Storage}
use weak_memory_models_mock.Storage.Tso.Buffer.{Buffer, StoreInstruction, InRange, drain}
use weak_memory_models_mock.Storage.Tso.Buffer
use weak_memory_models_mock.Storage.Tso.{Tso, propagate, flush_loop, flush_buffer}

-- Every buffered store is to an address of the storage.
abbrev pub IsValid : Tso → Type 0
IsValid s = All (InRange (length s.storage)) s.thread_buffers

-- The log after the stores of a buffer have reached the storage.
unfoldable pub drain_log : ℕ → Buffer → Log → Log
drain_log t [] l = l
drain_log t (i ∷ b) l = drain_log t b (Entry.tso_propagate t i.address i.value ∷ l)

-- The state in which thread `t` has nothing buffered, and its stores `b` are in the storage.
unfoldable pub flushed : Tso → ℕ → Buffer → Tso
flushed s t b = record s {
  storage = drain b s.storage;
  thread_buffers = set s.thread_buffers t [];
  log = drain_log t b s.log;
}

pub propagate-nil :
    (s : Tso) (t : ℕ) → get_elem? s.thread_buffers t ≡ some [] → propagate s t ≡ ok (false, s)
unfolding propagate Buffer.pop
propagate-nil s t e = rw (e, set-get_elem? s.thread_buffers t e)

-- One step of thread `t`.
abbrev pub propagated : Tso → ℕ → StoreInstruction → Buffer → Tso
propagated s t i b = record s {
  storage = set s.storage i.address i.value;
  thread_buffers = set s.thread_buffers t b;
  log = Entry.tso_propagate t i.address i.value ∷ s.log;
}

pub propagate-cons :
    (s : Tso) (t : ℕ) (i : StoreInstruction) (b : Buffer)
    → get_elem? s.thread_buffers t ≡ some (i ∷ b)
    → i.address < length s.storage
    → propagate s t ≡ ok (true, propagated s t i b)
unfolding propagate Buffer.pop
propagate-cons s t i b e h = let (c, d) = get_elem?-lt s.storage i.address h in rw (e, d)

flushed-propagated :
    (s : Tso) (t : ℕ) (i : StoreInstruction) (b : Buffer)
    → flushed (propagated s t i b) t b ≡ flushed s t (i ∷ b)
unfolding flushed drain drain_log
flushed-propagated s t i b = rw (set-set s.thread_buffers t b [])

flushed-nil : (s : Tso) (t : ℕ) → get_elem? s.thread_buffers t ≡ some [] → flushed s t [] ≡ s
unfolding flushed drain drain_log
flushed-nil s t e = rw (set-get_elem? s.thread_buffers t e)

pub InRange-set :
    (m : Storage) (a : ℕ) (v : ℤ) (b : Buffer)
    → InRange (length m) b
    → InRange (length (set m a v)) b
InRange-set m a v b h = rw (length-set m a v) h

-- With a round for each buffered store and one more, the loop ends with the buffer drained.
flush_loop_lem :
    (b : Buffer) (fuel : ℕ) (s : Tso) (t : ℕ)
    → length b < fuel
    → get_elem? s.thread_buffers t ≡ some b
    → InRange (length s.storage) b
    → flush_loop fuel s t ≡ ok (flushed s t b)
unfolding flush_loop
flush_loop_lem b zero s t f e h = elim f [ ]
flush_loop_lem [] (suc fuel) s t f e h = rw (propagate-nil s t e, flushed-nil s t e)
flush_loop_lem (i ∷ b) (suc fuel) s t f e h =
    rw (propagate-cons s t i b e h.0, ← flushed-propagated s t i b)
      (flush_loop_lem b fuel (propagated s t i b) t (omega arith)
        (get_elem?-set_self s.thread_buffers t b e) (InRange-set s.storage i.address i.value b h.1))

-- In a valid state a flush always succeeds: the stores that the thread buffered reach the storage
-- in the order in which they were made, the buffer is empty after, and no other buffer changes.
pub flush_buffer-fifo :
    (s : Tso) (t : ℕ) (b : Buffer)
    → IsValid s
    → get_elem? s.thread_buffers t ≡ some b
    → flush_buffer s t ≡ ok (flushed s t b)
unfolding flush_buffer
flush_buffer-fifo s t b v e =
    rw (e, ◌>>=◌)
      (flush_loop_lem b (suc (length b)) s t (omega arith) e
        (All-get_elem? (InRange (length s.storage)) s.thread_buffers t v e))
