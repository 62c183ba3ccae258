-- ===== src/Storage/Pso/Supplies.antt =====
-- What every step of the abstract machine of partial store order keeps, and which values it can read.
use weak_memory_models_mock.Base.{
  ℕ, ◌≡◌, ◌∙◌, some, Option-cases, inl, inr, ℤ, List, [], ◌∷◌, All, All-append, All-set,
  All-get_elem?, length, length-set, set, get_elem?,
}
use weak_memory_models_mock.Storage.Memory.{Storage}
use weak_memory_models_mock.Storage.Pso.Buffers.{AddressBuffer, ThreadBuffer, last, last-cons}
use weak_memory_models_mock.Storage.Pso.Machine.{
  Machine, Label, HasQueue, with_queue, newest, Step, reading, writing, committing, updating,
  fencing, Steps, stop, follow,
}

module _ (P : ℤ → Type 0) where
  abbrev pub Queued : ThreadBuffer → Type 0
  Queued tb = All (All P) tb

  -- So many threads, each with a queue for each of so many addresses, and all values in the memory and
  -- the queues have the property.
  pub record IsSupplied (threads size : ℕ) (m : Machine) : Type 0 where
    pub count : length m.queues ≡ threads
    pub cells : length m.memory ≡ size
    pub wide : All (λ tb. length tb ≡ size) m.queues
    pub memory : All P m.memory
    pub queues : All Queued m.queues

  -- A step that brings in no value without the property, and one that reads a value with it.
  abbrev pub Supplies : Label → Type 0
  Supplies (Label.reads t a v) = Unit
  Supplies (Label.writes t a v) = P v
  Supplies (Label.commits t a v) = Unit
  Supplies (Label.updates t a x y) = P x → P y
  Supplies (Label.fences t) = Unit

  abbrev pub Observes : Label → Type 0
  Observes (Label.reads t a v) = P v
  Observes (Label.writes t a v) = Unit
  Observes (Label.commits t a v) = Unit
  Observes (Label.updates t a x y) = P x
  Observes (Label.fences t) = Unit

  last-All : (queue : AddressBuffer) {v : ℤ} → All P queue → last queue ≡ some v → P v
  unfolding last
  last-All [] h e = absurd (cc)
  last-All (w ∷ queue) {v} h e = elim (Option-cases (last queue)) [
    | inr (x, q) ↦
        let e' = rw (last-cons w queue, q) at e in
        let same : x ≡ v = cc in rw (← same) (last-All queue h.1 q)
    | inl q ↦ let e' = rw (last-cons w queue, q) at e in let same : w ≡ v = cc in rw (← same) h.0
  ]

  newest-All :
      (queue : AddressBuffer) (memory : Storage) (a : ℕ) {v : ℤ}
      → All P queue
      → All P memory
      → newest queue memory a ≡ some v
      → P v
  newest-All queue memory a {v} h k e = elim (Option-cases (last queue)) [
    | inr (w, q) ↦
        let e' = rw (newest, q) at e in let same : w ≡ v = cc in rw (← same) (last-All queue h q)
    | inl q ↦ All-get_elem? P memory a k (rw (newest, q) at e)
  ]

  module _ {threads size : ℕ} {m : Machine} (h : IsSupplied threads size m) where
    queue-All : (t a : ℕ) {queue : AddressBuffer} → HasQueue m t a queue → All P queue
    queue-All t a (tb, here, e) =
        All-get_elem? (All P) tb a (All-get_elem? Queued m.queues t h.queues here) e

    with_queue-IsSupplied :
        (t a : ℕ) (tb : ThreadBuffer) (queue : AddressBuffer)
        → get_elem? m.queues t ≡ some tb
        → All P queue
        → IsSupplied threads size (with_queue m t tb a queue)
    with_queue-IsSupplied t a tb queue here q = record {
      count = length-set m.queues t _ ∙ h.count;
      cells = h.cells;
      wide =
          All-set (λ x. length x ≡ size) m.queues t _
            (length-set tb a queue ∙ All-get_elem? (λ x. length x ≡ size) m.queues t h.wide here)
            h.wide;
      memory = h.memory;
      queues =
          All-set Queued m.queues t _
            (All-set (All P) tb a queue q (All-get_elem? Queued m.queues t h.queues here)) h.queues;
    }

    set-IsSupplied :
        (a : ℕ) (v : ℤ) → P v → IsSupplied threads size (record m { memory = set m.memory a v })
    set-IsSupplied a v p = record {
      count = h.count;
      cells = length-set m.memory a v ∙ h.cells;
      wide = h.wide;
      memory = All-set P m.memory a v p h.memory;
      queues = h.queues;
    }

  pub Step-IsSupplied :
      {threads size : ℕ} {m m' : Machine} {l : Label}
      → Step m l m'
      → IsSupplied threads size m
      → Supplies l
      → IsSupplied threads size m' × Observes l
  Step-IsSupplied {m = m} (reading {t} {a} {v} {queue} q e) h s =
      (h, newest-All queue m.memory a (queue-All h t a q) h.memory e)
  Step-IsSupplied {m = m} (writing {t} {a} {v} {queue} q e) h s = (
    rw e (
        with_queue-IsSupplied h t a q.0 _ q.1
          (All-append P queue (v ∷ []) (queue-All h t a q) (s, tt))),
    tt,
  )
  Step-IsSupplied {m = m} (committing {t} {a} {v} {queue} q e) h s =
      let all = queue-All h t a q in
      (rw e (set-IsSupplied (with_queue-IsSupplied h t a q.0 queue q.1 all.1) a v all.0), tt)
  Step-IsSupplied {m = m} (updating {t} {a} {x} {y} q read e) h s =
      let old = All-get_elem? P m.memory a h.memory read in
      (rw e (set-IsSupplied h a y (s old)), old)
  Step-IsSupplied (fencing here empty) h s = (h, tt)

  -- Whatever the steps and their order, the values that are read have the property if those that are
  -- brought in have it.
  pub Steps-IsSupplied :
      {threads size : ℕ} {m m' : Machine} {ls : List Label}
      → Steps m ls m'
      → IsSupplied threads size m
      → All Supplies ls
      → IsSupplied threads size m' × All Observes ls
  Steps-IsSupplied stop h s = (h, tt)
  Steps-IsSupplied (follow step rest) h s =
      let (h', seen) = Step-IsSupplied step h s.0 in
      let (h'', all) = Steps-IsSupplied rest h' s.1 in (h'', (seen, all))
