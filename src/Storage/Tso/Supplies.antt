-- ===== src/Storage/Tso/Supplies.antt =====
-- Which values the abstract machine can hold and read.
use weak_memory_models_mock.Base.{
  ℕ, ◌≡◌, some, Option-cases, inl, inr, ℤ, List, [], ◌∷◌, Bool-cases, ◌==◌, All, All-append,
  All-set, All-get_elem?,
}
use weak_memory_models_mock.Storage.Memory.{Storage}
use weak_memory_models_mock.Storage.Tso.Buffer.{Buffer, StoreInstruction, latest}
use weak_memory_models_mock.Storage.Tso.Machine.{
  Machine, Label, newest, Step, reading, writing, committing, updating, fencing, Steps, stop,
  follow,
}

module _ (P : ℤ → Type 0) where
  abbrev pub Queued : Buffer → Type 0
  Queued queue = All (λ (i : StoreInstruction). P i.value) queue

  -- All values in the memory and the queues have the property.
  pub record Holds (m : Machine) : Type 0 where
    pub memory : All P m.memory
    pub queues : All Queued m.queues

  -- A step that brings in no value without it, and one that reads a value with it.
  abbrev pub Supplies : Label → Type 0
  Supplies (Label.reads t a v) = Unit
  Supplies (Label.writes t a v) = P v
  Supplies (Label.commits t i) = Unit
  Supplies (Label.updates t a x y) = P x → P y
  Supplies (Label.fences t) = Unit

  abbrev pub Observes : Label → Type 0
  Observes (Label.reads t a v) = P v
  Observes (Label.writes t a v) = Unit
  Observes (Label.commits t i) = Unit
  Observes (Label.updates t a x y) = P x
  Observes (Label.fences t) = Unit

  latest-Queued : (queue : Buffer) (a : ℕ) {v : ℤ} → Queued queue → latest queue a ≡ some v → P v
  unfolding latest
  latest-Queued [] a h e = absurd (cc)
  latest-Queued (i ∷ queue) a {v} h e = elim (Option-cases (latest queue a)) [
    | inr (w, q) ↦
        let e' = rw q at e in let same : w ≡ v = cc in rw (← same) (latest-Queued queue a h.1 q)
    | inl q ↦ elim (Bool-cases (i.address == a)) [
      | inl f ↦ let e' = rw (q, f) at e in let same : i.value ≡ v = cc in rw (← same) h.0
      | inr f ↦ let e' = rw (q, f) at e in absurd (cc)
    ]
  ]

  newest-Queued :
      (queue : Buffer) (memory : Storage) (a : ℕ) {v : ℤ}
      → Queued queue
      → All P memory
      → newest queue memory a ≡ some v
      → P v
  newest-Queued queue memory a {v} h k e = elim (Option-cases (latest queue a)) [
    | inr (w, q) ↦
        let e' = rw (newest, q) at e in
        let same : w ≡ v = cc in rw (← same) (latest-Queued queue a h q)
    | inl q ↦ All-get_elem? P memory a k (rw (newest, q) at e)
  ]

  Step-Holds :
      {m m' : Machine} {l : Label} → Step m l m' → Holds m → Supplies l → Holds m' × Observes l
  Step-Holds {m} (reading {t} {a} {v} {queue} here e) h s =
      (h, newest-Queued queue m.memory a (All-get_elem? Queued m.queues t h.queues here) h.memory e)
  Step-Holds {m} (writing {t} {a} {v} {queue} here e) h s = (
    rw e (record {
      memory = h.memory;
      queues =
          All-set Queued m.queues t _
            (All-append (λ (i : StoreInstruction). P i.value) queue
              (record { address = a; value = v } ∷ [])
              (All-get_elem? Queued m.queues t h.queues here) (s, tt))
            h.queues;
    }),
    tt,
  )
  Step-Holds {m} (committing {t} {i} {queue} here e) h s = (
    let all = All-get_elem? Queued m.queues t h.queues here in
        rw e (record {
          memory = All-set P m.memory i.address i.value all.0 h.memory;
          queues = All-set Queued m.queues t queue all.1 h.queues;
        }),
    tt,
  )
  Step-Holds {m} (updating {t} {a} {x} {y} here read e) h s =
      let old = All-get_elem? P m.memory a h.memory read in
      (rw e (record { memory = All-set P m.memory a y (s old) h.memory; queues = h.queues }), old)
  Step-Holds (fencing here) h s = (h, tt)

  -- Whatever the steps and their order, the values that are read have the property if those that are
  -- brought in have it.
  pub Steps-Holds :
      {m m' : Machine} {ls : List Label}
      → Steps m ls m'
      → Holds m
      → All Supplies ls
      → Holds m' × All Observes ls
  Steps-Holds stop h s = (h, tt)
  Steps-Holds (follow step rest) h s =
      let (h', seen) = Step-Holds step h s.0 in
      let (h'', all) = Steps-Holds rest h' s.1 in (h'', (seen, all))
