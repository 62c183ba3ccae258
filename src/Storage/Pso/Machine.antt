-- ===== src/Storage/Pso/Machine.antt =====
-- The abstract machine of partial store order: a memory, and for each thread and address a queue of
-- the thread's stores to it, which src/Storage/src/PartialStoreOrderStorageManager.cpp implements.
use weak_memory_models_mock.Base.{
  ℕ, ◌≡◌, refl, Option, none, some, ℤ, List, [], ◌∷◌, ◌++◌, map, set, set-set, set-get_elem?,
  get_elem?, get_elem?-set_self, All,
}
use weak_memory_models_mock.Storage.Memory.{Storage}
use weak_memory_models_mock.Storage.Pso.Buffers.{AddressBuffer, ThreadBuffer, last}
use weak_memory_models_mock.Storage.Pso.Overlay.{drain}
use weak_memory_models_mock.Storage.Pso.{Pso}
use weak_memory_models_mock.Storage.Pso.Flush.{flushed}

pub record Machine : Type 0 where
  pub memory : Storage
  pub queues : List ThreadBuffer

-- The machine that a state of the manager stands for; the log is forgotten.
abbrev pub view : Pso → Machine
view s = record { memory = s.storage; queues = s.thread_buffers }

-- What a step does, by which thread.
pub data Label : Type 0 where
  reads writes commits : (thread address : ℕ) → ℤ → Label
  updates : (thread address : ℕ) → (old new : ℤ) → Label
  fences : (thread : ℕ) → Label

-- The thread has this queue for the address.
abbrev pub HasQueue : Machine → ℕ → ℕ → AddressBuffer → Type 0
HasQueue m t a queue =
    (tb : ThreadBuffer) × (get_elem? m.queues t ≡ some tb) × (get_elem? tb a ≡ some queue)

abbrev pub with_queue : Machine → ℕ → ThreadBuffer → ℕ → AddressBuffer → Machine
with_queue m t tb a queue = record m { queues = set m.queues t (set tb a queue) }

-- What a thread reads: its newest store to the address that is still queued, or the memory.
abbrev pub newest : AddressBuffer → Storage → ℕ → Option ℤ
newest queue memory a = elim (last queue) [ some v ↦ some v | none ↦ get_elem? memory a ]

-- A read is of the own queue of the address first, a write joins its end, and its front may reach the
-- memory, whatever else is queued. A thread reads and writes the memory in one step only where nothing
-- is queued for that address, and passes a fence only with all its queues empty.
pub data Step (m : Machine) : Label → Machine → Type 0 where
  reading :
      {t a : ℕ} {v : ℤ} {queue : AddressBuffer}
      → HasQueue m t a queue
      → newest queue m.memory a ≡ some v
      → Step m (Label.reads t a v) m
  writing :
      {t a : ℕ} {v : ℤ} {queue : AddressBuffer} {m' : Machine}
      → (q : HasQueue m t a queue) → m' ≡ with_queue m t q.0 a (queue ++ (v ∷ []))
      → Step m (Label.writes t a v) m'
  committing :
      {t a : ℕ} {v : ℤ} {queue : AddressBuffer} {m' : Machine}
      → (q : HasQueue m t a (v ∷ queue))
      → m' ≡ record (with_queue m t q.0 a queue) { memory = set m.memory a v }
      → Step m (Label.commits t a v) m'
  updating :
      {t a : ℕ} {x y : ℤ} {m' : Machine}
      → HasQueue m t a []
      → get_elem? m.memory a ≡ some x
      → m' ≡ record m { memory = set m.memory a y }
      → Step m (Label.updates t a x y) m'
  fencing :
      {t : ℕ} {tb : ThreadBuffer}
      → get_elem? m.queues t ≡ some tb
      → All (λ queue. queue ≡ []) tb
      → Step m (Label.fences t) m

pub data Steps : Machine → List Label → Machine → Type 0 where
  stop : {m : Machine} → Steps m [] m
  follow :
      {m m' m'' : Machine} {l : Label} {ls : List Label}
      → Step m l m'
      → Steps m' ls m''
      → Steps m (l ∷ ls) m''

pub Steps-append :
    {m m' m'' : Machine} {ls ls' : List Label}
    → Steps m ls m'
    → Steps m' ls' m''
    → Steps m (ls ++ ls') m''
Steps-append stop b = b
Steps-append (follow s a) b = follow s (Steps-append a b)

-- A queue that reaches the memory, the oldest store first.
abbrev pub commits_of : ℕ → ℕ → AddressBuffer → List Label
commits_of t a queue = map (λ v. Label.commits t a v) queue

pub flushed-Steps :
    (s : Pso) (t a : ℕ) (tb : ThreadBuffer) (b : AddressBuffer)
    → get_elem? s.thread_buffers t ≡ some tb
    → get_elem? tb a ≡ some b
    → Steps (view s) (commits_of t a b) (view (flushed s t a tb b))
unfolding flushed drain
flushed-Steps s t a tb [] here e =
    rw (set-get_elem? tb a e, set-get_elem? s.thread_buffers t here) stop
flushed-Steps s t a tb (v ∷ b) here e =
    let s' : Pso = record s {
      storage = set s.storage a v;
      thread_buffers = set s.thread_buffers t (set tb a b);
    } in
    let rest =
      rw
        (
          flushed,
          set-set s.thread_buffers t (set tb a b) (set (set tb a b) a []),
          set-set tb a b [],
        )
        at
        (flushed-Steps s' t a (set tb a b) b
          (get_elem?-set_self s.thread_buffers t (set tb a b) here)
          (get_elem?-set_self tb a b e)) in
    follow (committing (tb, here, e) refl) rest
