-- ===== src/Storage/Tso/Machine.antt =====
-- The abstract machine of total store order: a memory, and for each thread a queue of its stores in
-- front of it, which src/Storage/src/TotalStoreOrderStorageManager.cpp implements.
use weak_memory_models_mock.Base.{
  ℕ, ◌≡◌, refl, Option, none, some, ℤ, List, [], ◌∷◌, ◌++◌, map, set, set-set, set-get_elem?,
  get_elem?, get_elem?-set_self,
}
use weak_memory_models_mock.Storage.Memory.{Storage}
use weak_memory_models_mock.Storage.Tso.Buffer.{Buffer, StoreInstruction, latest, drain}
use weak_memory_models_mock.Storage.Tso.{Tso}
use weak_memory_models_mock.Storage.Tso.Flush.{flushed}

pub record Machine : Type 0 where
  pub memory : Storage
  pub queues : List Buffer

-- The machine that a state of the manager stands for; the log is forgotten.
abbrev pub view : Tso → Machine
view s = record { memory = s.storage; queues = s.thread_buffers }

-- What a step does, by which thread.
pub data Label : Type 0 where
  reads writes : (thread address : ℕ) → ℤ → Label
  commits : (thread : ℕ) → StoreInstruction → Label
  updates : (thread address : ℕ) → (old new : ℤ) → Label
  fences : (thread : ℕ) → Label

-- What a thread reads: its newest store that is still in its queue, or the memory.
abbrev pub newest : Buffer → Storage → ℕ → Option ℤ
newest queue memory a = elim (latest queue a) [ some v ↦ some v | none ↦ get_elem? memory a ]

-- A read is of the own queue first, a write joins the end of the own queue, the front of any queue may
-- reach the memory, and a thread reads and writes the memory in one step, or passes a fence, only with
-- an empty queue.
pub data Step (m : Machine) : Label → Machine → Type 0 where
  reading :
      {t a : ℕ} {v : ℤ} {queue : Buffer}
      → get_elem? m.queues t ≡ some queue
      → newest queue m.memory a ≡ some v
      → Step m (Label.reads t a v) m
  writing :
      {t a : ℕ} {v : ℤ} {queue : Buffer} {m' : Machine}
      → get_elem? m.queues t ≡ some queue
      → m'
        ≡ record m { queues = set m.queues t (queue ++ (record { address = a; value = v } ∷ [])) }
      → Step m (Label.writes t a v) m'
  committing :
      {t : ℕ} {i : StoreInstruction} {queue : Buffer} {m' : Machine}
      → get_elem? m.queues t ≡ some (i ∷ queue)
      → m' ≡ record { memory = set m.memory i.address i.value; queues = set m.queues t queue }
      → Step m (Label.commits t i) m'
  updating :
      {t a : ℕ} {x y : ℤ} {m' : Machine}
      → get_elem? m.queues t ≡ some []
      → get_elem? m.memory a ≡ some x
      → m' ≡ record m { memory = set m.memory a y }
      → Step m (Label.updates t a x y) m'
  fencing : {t : ℕ} → get_elem? m.queues t ≡ some [] → Step m (Label.fences t) m

pub data Steps : Machine → List Label → Machine → Type 0 where
  stop : {m : Machine} → Steps m [] m
  follow :
      {m m' m'' : Machine} {l : Label} {ls : List Label}
      → Step m l m'
      → Steps m' ls m''
      → Steps m (l ∷ ls) m''

pub Steps-append :
    {m m' m'' : Machine} {ls ls' : List Label}
    → Steps m ls m'
    → Steps m' ls' m''
    → Steps m (ls ++ ls') m''
Steps-append stop b = b
Steps-append (follow s a) b = follow s (Steps-append a b)

-- A thread's queue that reaches the memory, the oldest store first.
abbrev pub commits_of : ℕ → Buffer → List Label
commits_of t queue = map (λ i. Label.commits t i) queue

pub flushed-Steps :
    (s : Tso) (t : ℕ) (b : Buffer)
    → get_elem? s.thread_buffers t ≡ some b
    → Steps (view s) (commits_of t b) (view (flushed s t b))
unfolding flushed drain
flushed-Steps s t [] e = rw (set-get_elem? s.thread_buffers t e) stop
flushed-Steps s t (i ∷ b) e =
    let s' : Tso = record s {
      storage = set s.storage i.address i.value;
      thread_buffers = set s.thread_buffers t b;
    } in
    let rest =
      rw (flushed, set-set s.thread_buffers t b []) at
        (flushed-Steps s' t b (get_elem?-set_self s.thread_buffers t b e)) in
    follow (committing e refl) rest
