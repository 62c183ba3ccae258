-- ===== src/Storage/Tso/Calls.antt =====
-- A call of a memory operation under TSO, by a thread that exists and to an address that exists.
use weak_memory_models_mock.Base.{
  ℕ, ◌<◌, ◌≡◌, refl, sym, ap, ◌∙◌, Option, none, some, ℤ, [], length, get_elem?, get_elem?-lt,
  length-set, ok, err, Result, Fault, ◌>>=◌, arith, OnlyOverflows,
}
use weak_memory_models_mock.Storage.Manager.{Operation, perform, thread_of, Addresses}
use weak_memory_models_mock.Storage.Sc.{Sc}
use weak_memory_models_mock.Storage.Sc
use weak_memory_models_mock.Storage.Tso.Buffer.{Buffer, length-drain}
use weak_memory_models_mock.Storage.Tso.{Tso, UpdateManager, store}
use weak_memory_models_mock.Storage.Tso
use weak_memory_models_mock.Storage.Tso.Flush.{IsValid}
use weak_memory_models_mock.Storage.Tso.Atomics.{
  seen, settle, load-eq-drained, compare_and_swap-eq-sc, fetch_and_increment-eq-sc, fence-eq-sc,
}
use weak_memory_models_mock.Storage.Tso.Solo.{Sees, perform-Agree}
use weak_memory_models_mock.Storage.Solo.{Agree}

-- How a call may end: in a valid state of the same size, or because an increment overflows.
abbrev pub Completes : {M : Type 0} → Tso → Result (Option ℤ × (M × Tso)) → Type 0
Completes s (ok r) =
    IsValid r.1.1
    × (length r.1.1.storage ≡ length s.storage)
    × (length r.1.1.thread_buffers ≡ length s.thread_buffers)
Completes s (err e) = e ≡ Fault.overflow

abbrev KeepsThreads : {M : Type 0} → Tso → Result (Option ℤ × (M × Tso)) → Type 0
KeepsThreads s (ok r) = length r.1.1.thread_buffers ≡ length s.thread_buffers
KeepsThreads s (err e) = Unit

settle-KeepsThreads :
    {M : Type 0} (k : M) (s : Tso) (t : ℕ) (r : Result Sc)
    → KeepsThreads s (r >>= (λ c. ok (settle s t c)) >>= (λ r. ok (k, r)) >>= (λ r. ok (none, r)))
unfolding settle
settle-KeepsThreads k s t (ok c) = length-set s.thread_buffers t []
settle-KeepsThreads k s t (err e) = tt

call-KeepsThreads :
    {M : Type 0} (u : UpdateManager M) (k : M) (s : Tso) (b : Buffer) (op : Operation)
    → IsValid s
    → get_elem? s.thread_buffers (thread_of op) ≡ some b
    → KeepsThreads s (perform (Tso.manager u) op (k, s))
unfolding store
call-KeepsThreads u k s b (Operation.load t a o) v e = ground (arith, load-eq-drained s t b v e a o)
call-KeepsThreads u k s b (Operation.store t a x o) v e = rw e (length-set s.thread_buffers t _)
call-KeepsThreads u k s b (Operation.compare_and_swap t a x y o) v e =
    rw (compare_and_swap-eq-sc s t b v e a x y o) (settle-KeepsThreads k s t _)
call-KeepsThreads u k s b (Operation.fetch_and_increment t a i o) v e =
    rw (fetch_and_increment-eq-sc s t b v e a i o) (settle-KeepsThreads k s t _)
call-KeepsThreads u k s b (Operation.fence t o) v e =
    rw (fence-eq-sc s t b v e o) (settle-KeepsThreads k s t _)

combine :
    {M : Type 0} (s : Tso) (m : Sc) (t : ℕ) (r : Result (Option ℤ × (M × Tso)))
    (q : Result (Option ℤ × Sc))
    → length m.storage ≡ length s.storage
    → Agree (λ (k : M × Tso). Sees t k.1) r q
    → Sc.KeepsSize m q
    → OnlyOverflows q
    → KeepsThreads s r
    → Completes s r
combine s m t (ok (x, k)) (ok (y, m')) size (e, sees) keeps over threads = (
  sees.valid,
  sym (ap length sees.same ∙ length-drain sees.buffer k.1.storage) ∙ keeps ∙ size,
  threads,
)
combine s m t (err e) (err f) size agree keeps over threads = agree ∙ over
combine s m t (ok r) (err f) size agree keeps over threads = absurd agree
combine s m t (err e) (ok q) size agree keeps over threads = absurd agree

-- In a valid state every call by an existing thread to an existing address completes: it leaves a
-- valid state with as many cells and buffers, or it is a fetch-and-increment that overflows.
pub perform-Completes :
    {M : Type 0} (u : UpdateManager M) (k : M) (s : Tso) (op : Operation)
    → IsValid s
    → thread_of op < length s.thread_buffers
    → Addresses (length s.storage) op
    → Completes s (perform (Tso.manager u) op (k, s))
unfolding seen
perform-Completes u k s op v h a =
    let (b, e) = get_elem?-lt s.thread_buffers (thread_of op) h in
    let m = seen s (thread_of op) b in
    let size = length-drain b s.storage in
    let a' : Addresses (length m.storage) op = rw size a in
    combine s m (thread_of op) _ (perform Sc.manager op m) size
      (perform-Agree s (thread_of op) m (record { buffer = b; here = e; valid = v; same = refl }) u
        k op refl a')
      (Sc.perform-KeepsSize op m) (Sc.perform-OnlyOverflows op m a')
      (call-KeepsThreads u k s b op v e)
