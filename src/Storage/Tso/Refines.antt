-- ===== src/Storage/Tso/Refines.antt =====
-- The calls of the TSO manager as steps of the abstract machine.
use weak_memory_models_mock.Base.{
  ℕ, ◌<◌, ◌≡◌, refl, sym, ap, Option, none, some, ℤ, ◌==ℤ◌, add32, add32-OnlyOverflows, List, [],
  ◌∷◌, ◌++◌, ok, Fault, if◌then◌else◌, set-get_elem?, length, get_elem?, get_elem?-lt,
  get_elem?-set_self, EndsIn, Bool-cases, Option-cases, Result-cases, inl, inr, arith,
}
use weak_memory_models_mock.Storage.Manager.{Operation, perform, thread_of, Addresses}
use weak_memory_models_mock.Storage.Tso.Buffer.{
  Buffer, latest, drain, find-eq-latest, length-drain, push,
}
use weak_memory_models_mock.Storage.Tso.{
  Tso, UpdateManager, load, store, compare_and_swap, fetch_and_increment, fence, internal_update,
}
use weak_memory_models_mock.Storage.Tso
use weak_memory_models_mock.Storage.Tso.Flush.{IsValid, flushed, flush_buffer-fifo}
use weak_memory_models_mock.Storage.Tso.Machine.{
  Machine, view, Label, newest, Step, reading, writing, updating, fencing, Steps, stop, follow,
  Steps-append, commits_of, flushed-Steps,
}

-- The steps that a call of a thread with the buffer `b` makes, by what it returns.
abbrev pub Implements : Operation → Buffer → Option ℤ → List Label → Type 0
Implements (Operation.load t a o) b none ls = ⊥
Implements (Operation.load t a o) b (some v) ls = ls ≡ Label.reads t a v ∷ []
Implements (Operation.store t a v o) b r ls = (r ≡ none) × (ls ≡ Label.writes t a v ∷ [])
Implements (Operation.compare_and_swap t a expected new o) b r ls =
    (r ≡ none)
    × (x : ℤ) × (ls
        ≡ commits_of t b ++ (Label.updates t a x (if x ==ℤ expected then new else x) ∷ []))
Implements (Operation.fetch_and_increment t a i o) b r ls =
    (r ≡ none)
    × (x : ℤ) × (y : ℤ) × (add32 x i ≡ ok y)
    × (ls ≡ commits_of t b ++ (Label.updates t a x y ∷ []))
Implements (Operation.fence t o) b r ls =
    (r ≡ none) × (ls ≡ commits_of t b ++ (Label.fences t ∷ []))

module _ {M : Type 0} where
  abbrev pub Refines : Tso → Operation → Buffer → Option ℤ × (M × Tso) → Type 0
  Refines s op b r = (ls : List Label) × Steps (view s) ls (view r.1.1) × Implements op b r.0 ls

-- The memory behind a drained buffer, and the empty queue.
module _ (s : Tso) (t : ℕ) (b : Buffer) (here : get_elem? s.thread_buffers t ≡ some b) where
  drained :
      (m' : Machine) (l : Label)
      → Step (view (flushed s t b)) l m'
      → Steps (view s) (commits_of t b ++ (l ∷ [])) m'
  drained m' l step = Steps-append (flushed-Steps s t b here) (follow step stop)

  queue_empty : get_elem? (flushed s t b).thread_buffers t ≡ some []
  unfolding flushed
  queue_empty = get_elem?-set_self s.thread_buffers t [] here

  cell : (a : ℕ) → a < length s.storage → (c : ℤ) × (get_elem? (flushed s t b).storage a ≡ some c)
  unfolding flushed
  cell a h =
      get_elem?-lt (drain b s.storage) a
        (let size = length-drain b s.storage in omega (arith, size, h))

-- In a valid state a call by a thread that exists, to an address that exists, is a run of the machine: a
-- load one read of the value that it returns, a store one write, and an atomic operation or a fence the
-- commits of all that the thread has buffered, in order, and then one step that reads and writes the
-- memory at once, or passes the fence. A compare-and-swap that fails writes back what it has read. The
-- only fault is an increment that overflows.
pub perform-Refines :
    {M : Type 0} (u : UpdateManager M) (k : M) (s : Tso) (op : Operation) (b : Buffer)
    → IsValid s
    → get_elem? s.thread_buffers (thread_of op) ≡ some b
    → Addresses (length s.storage) op
    → EndsIn (λ fault. fault ≡ Fault.overflow) (Refines s op b) (perform (Tso.manager u) op (k, s))
perform-Refines u k s (Operation.load t a o) b v here h = elim (Option-cases (latest b a)) [
  | inr (w, q) ↦
      unfold load in
      rw (here, find-eq-latest b a, q)
        (Label.reads t a w ∷ [], follow (reading here (rw (newest, q) refl)) stop, refl)
  | inl q ↦
      let (c, d) = get_elem?-lt s.storage a h in
      unfold load in
      rw (here, find-eq-latest b a, q, d)
        (Label.reads t a c ∷ [], follow (reading here (rw (newest, q) d)) stop, refl)
]
perform-Refines u k s (Operation.store t a x o) b v here h =
    unfold store push in
    rw here (Label.writes t a x ∷ [], follow (writing here refl) stop, (refl, refl))
perform-Refines u k s (Operation.compare_and_swap t a x y o) b v here h =
    let (c, read) = cell s t b here a h in
    elim (Bool-cases (c ==ℤ x)) [
      | inl e ↦
          unfold compare_and_swap in
          rw (flush_buffer-fifo s t b v here, read, e)
            (
              commits_of t b ++ (Label.updates t a c y ∷ []),
              drained s t b here _ (Label.updates t a c y)
                  (updating (queue_empty s t b here) read refl),
              (refl, c, rw e refl),
            )
      | inr e ↦
          unfold compare_and_swap in
          rw (flush_buffer-fifo s t b v here, read, e)
            (
              commits_of t b ++ (Label.updates t a c c ∷ []),
              drained s t b here _ (Label.updates t a c c) (
                  updating (queue_empty s t b here) read (
                    ap (λ m. record { memory = m; queues = (flushed s t b).thread_buffers })
                      (sym (set-get_elem? (flushed s t b).storage a read)))),
              (refl, c, rw e refl),
            )
    ]
perform-Refines u k s (Operation.fetch_and_increment t a i o) b v here h =
    let (c, read) = cell s t b here a h in
    let overflows = add32-OnlyOverflows c i in
    elim (Result-cases (add32 c i)) [
      | inl (n, q) ↦
          unfold fetch_and_increment in
          rw (flush_buffer-fifo s t b v here, read, q)
            (
              commits_of t b ++ (Label.updates t a c n ∷ []),
              drained s t b here _ (Label.updates t a c n)
                  (updating (queue_empty s t b here) read refl),
              (refl, c, n, q, refl),
            )
      | inr (f, q) ↦
          unfold fetch_and_increment in
          rw (flush_buffer-fifo s t b v here, read, q) (rw q at overflows)
    ]
perform-Refines u k s (Operation.fence t o) b v here h =
    unfold fence in
    rw (flush_buffer-fifo s t b v here)
      (_, drained s t b here _ (Label.fences t) (fencing (queue_empty s t b here)), (refl, refl))
