-- ===== src/Storage/Pso/Refines.antt =====
-- The calls of the PSO manager as steps of the abstract machine.
use weak_memory_models_mock.Base.{
  ℕ, ◌<◌, ◌≡◌, refl, sym, ap, ◌∙◌, Option, none, some, ℤ, ◌==ℤ◌, add32, add32-OnlyOverflows, List,
  [], ◌∷◌, ◌++◌, ok, Fault, if◌then◌else◌, set-get_elem?, set, length, get_elem?, get_elem?-lt,
  get_elem?-set_self, EndsIn, Bool-cases, Option-cases, Result-cases, inl, inr, arith, indices,
  All-get_elem?,
}
use weak_memory_models_mock.Storage.Manager.{Operation, perform, thread_of, Addresses}
use weak_memory_models_mock.Storage.Pso.Buffers.{AddressBuffer, ThreadBuffer, last, push}
use weak_memory_models_mock.Storage.Pso.Buffers
use weak_memory_models_mock.Storage.Pso.Overlay.{drain, length-drain}
use weak_memory_models_mock.Storage.Pso.{
  Pso, UpdateManager, load, store, compare_and_swap, fetch_and_increment, fence, flush_all,
}
use weak_memory_models_mock.Storage.Pso
use weak_memory_models_mock.Storage.Pso.Flush.{IsValid, flushed, flush_buffer-address}
use weak_memory_models_mock.Storage.Pso.Fence.{clear}
use weak_memory_models_mock.Storage.Pso.Commits.{
  all_commits, flush_all-Steps, clear-Empty, queue_commits,
}
use weak_memory_models_mock.Storage.Pso.Machine.{
  Machine, view, Label, newest, Step, HasQueue, reading, writing, updating, fencing, Steps, stop,
  follow, Steps-append, commits_of, flushed-Steps,
}

-- The steps that a call of a thread with the buffers `tb` makes, by what it returns.
abbrev pub Implements : Operation → ThreadBuffer → Option ℤ → List Label → Type 0
Implements (Operation.load t a o) tb none ls = ⊥
Implements (Operation.load t a o) tb (some v) ls = ls ≡ Label.reads t a v ∷ []
Implements (Operation.store t a v o) tb r ls = (r ≡ none) × (ls ≡ Label.writes t a v ∷ [])
Implements (Operation.compare_and_swap t a expected new o) tb r ls =
    (r ≡ none)
    × (x : ℤ) × (ls
        ≡ queue_commits t a (get_elem? tb a)
          ++ (Label.updates t a x (if x ==ℤ expected then new else x) ∷ []))
Implements (Operation.fetch_and_increment t a i o) tb r ls =
    (r ≡ none)
    × (x : ℤ) × (y : ℤ) × (add32 x i ≡ ok y)
    × (ls ≡ queue_commits t a (get_elem? tb a) ++ (Label.updates t a x y ∷ []))
Implements (Operation.fence t o) tb r ls =
    (r ≡ none) × (ls ≡ all_commits t tb ++ (Label.fences t ∷ []))

module _ {M : Type 0} where
  abbrev pub Refines : Pso → Operation → ThreadBuffer → Option ℤ × (M × Pso) → Type 0
  Refines s op tb r = (ls : List Label) × Steps (view s) ls (view r.1.1) × Implements op tb r.0 ls

-- The memory behind a queue that is drained, and that queue.
module _ (s : Pso) (t a : ℕ) (tb : ThreadBuffer) (b : AddressBuffer)
    (here : get_elem? s.thread_buffers t ≡ some tb) (e : get_elem? tb a ≡ some b) where
  drained :
      (m' : Machine) (l : Label)
      → Step (view (flushed s t a tb b)) l m'
      → Steps (view s) (commits_of t a b ++ (l ∷ [])) m'
  drained m' l step = Steps-append (flushed-Steps s t a tb b here e) (follow step stop)

  queue_empty : HasQueue (view (flushed s t a tb b)) t a []
  unfolding flushed
  queue_empty = (
    set tb a [],
    get_elem?-set_self s.thread_buffers t (set tb a []) here,
    get_elem?-set_self tb a [] e,
  )

  cell : a < length s.storage → (c : ℤ) × (get_elem? (flushed s t a tb b).storage a ≡ some c)
  unfolding flushed
  cell h =
      get_elem?-lt (drain a b s.storage) a
        (let size = length-drain a b s.storage in omega (arith, size, h))

-- A thread of a valid state has a buffer for each address.
wide :
    (s : Pso) (t : ℕ) (tb : ThreadBuffer)
    → IsValid s
    → get_elem? s.thread_buffers t ≡ some tb
    → length tb ≡ length s.storage
wide s t tb v here = All-get_elem? (λ x. length x ≡ length s.storage) s.thread_buffers t v here

queue :
    (s : Pso) (t a : ℕ) (tb : ThreadBuffer)
    → IsValid s
    → get_elem? s.thread_buffers t ≡ some tb
    → a < length s.storage
    → (b : AddressBuffer) × (get_elem? tb a ≡ some b)
queue s t a tb v here h =
    get_elem?-lt tb a (let size = wide s t tb v here in omega (arith, size, h))

fence-Steps :
    (s : Pso) (t : ℕ) (tb : ThreadBuffer)
    → length s.storage ≡ length tb
    → get_elem? s.thread_buffers t ≡ some tb
    → (s' : Pso) × (flush_all (indices 0 (length s.storage)) s t ≡ ok s')
      × Steps (view s) (all_commits t tb ++ (Label.fences t ∷ [])) (view s')
fence-Steps s t tb size here =
    let (s', q, steps, buffers) =
      flush_all-Steps (length tb) 0 s t tb here (sym size) (omega arith) in
    let cleared : get_elem? s'.thread_buffers t ≡ some (clear (indices 0 (length tb)) tb) =
      rw buffers (get_elem?-set_self s.thread_buffers t _ here) in
    (
      s',
      ap (λ n. flush_all (indices 0 n) s t) size ∙ q,
      Steps-append steps (follow (fencing cleared (clear-Empty tb)) stop),
    )

-- In a valid state a call by a thread that exists, to an address that exists, is a run of the machine: a
-- load one read of the value that it returns, a store one write; a compare-and-swap or an increment the
-- commits of what the thread has buffered for that address alone, in order, and then one step that reads
-- and writes the memory at once; a fence the commits of all that the thread has buffered, address by
-- address, and then the passing of the fence. A compare-and-swap that fails writes back what it has
-- read. The only fault is an increment that overflows.
pub manager-Refines :
    {M : Type 0} (u : UpdateManager M) (rounds : M → Pso → ℕ) (k : M) (s : Pso) (op : Operation)
    (tb : ThreadBuffer)
    → IsValid s
    → get_elem? s.thread_buffers (thread_of op) ≡ some tb
    → Addresses (length s.storage) op
    → EndsIn
        (λ fault. fault ≡ Fault.overflow)
        (Refines s op tb)
        (perform (Pso.manager u rounds) op (k, s))
manager-Refines u rounds k s (Operation.load t a o) tb v here h =
    let (b, e) = queue s t a tb v here h in
    elim (Option-cases (last b)) [
      | inr (w, q) ↦
          unfold load Buffers.find in
          rw (here, e, q)
            (
              Label.reads t a w ∷ [],
              follow (reading (tb, here, e) (rw (newest, q) refl)) stop,
              refl,
            )
      | inl q ↦
          let (c, d) = get_elem?-lt s.storage a h in
          unfold load Buffers.find in
          rw (here, e, q, d)
            (Label.reads t a c ∷ [], follow (reading (tb, here, e) (rw (newest, q) d)) stop, refl)
    ]
manager-Refines u rounds k s (Operation.store t a x o) tb v here h =
    let (b, e) = queue s t a tb v here h in
    unfold store Buffers.push_at push in
    rw (here, e) (Label.writes t a x ∷ [], follow (writing (tb, here, e) refl) stop, (refl, refl))
manager-Refines u rounds k s (Operation.compare_and_swap t a x y o) tb v here h =
    let (b, e) = queue s t a tb v here h in
    let (c, read) = cell s t a tb b here e h in
    elim (Bool-cases (c ==ℤ x)) [
      | inl q ↦
          unfold compare_and_swap in
          rw (flush_buffer-address s t a tb b here e h, read, q)
            (
              commits_of t a b ++ (Label.updates t a c y ∷ []),
              drained s t a tb b here e _ (Label.updates t a c y)
                  (updating (queue_empty s t a tb b here e) read refl),
              (refl, c, rw (e, q) refl),
            )
      | inr q ↦
          unfold compare_and_swap in
          rw (flush_buffer-address s t a tb b here e h, read, q)
            (
              commits_of t a b ++ (Label.updates t a c c ∷ []),
              drained s t a tb b here e _ (Label.updates t a c c) (
                  updating (queue_empty s t a tb b here e) read (
                    ap (λ m. record { memory = m; queues = (flushed s t a tb b).thread_buffers })
                      (sym (set-get_elem? (flushed s t a tb b).storage a read)))),
              (refl, c, rw (e, q) refl),
            )
    ]
manager-Refines u rounds k s (Operation.fetch_and_increment t a i o) tb v here h =
    let (b, e) = queue s t a tb v here h in
    let (c, read) = cell s t a tb b here e h in
    let overflows = add32-OnlyOverflows c i in
    elim (Result-cases (add32 c i)) [
      | inl (n, q) ↦
          unfold fetch_and_increment in
          rw (flush_buffer-address s t a tb b here e h, read, q)
            (
              commits_of t a b ++ (Label.updates t a c n ∷ []),
              drained s t a tb b here e _ (Label.updates t a c n)
                  (updating (queue_empty s t a tb b here e) read refl),
              (refl, c, n, q, rw e refl),
            )
      | inr (f, q) ↦
          unfold fetch_and_increment in
          rw (flush_buffer-address s t a tb b here e h, read, q) (rw q at overflows)
    ]
manager-Refines u rounds k s (Operation.fence t o) tb v here h =
    let (s', q, steps) = fence-Steps s t tb (sym (wide s t tb v here)) here in
    unfold fence in rw q (all_commits t tb ++ (Label.fences t ∷ []), steps, (refl, refl))
