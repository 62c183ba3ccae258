-- ===== src/Storage/Tso/Interleaving.antt =====
-- The calls of all threads and the updates of the TSO manager, in any order.
use weak_memory_models_mock.Base.{
  ℕ, ◌≡◌, refl, ◌∙◌, Bool, true, false, Option, none, some, ℤ, ◌==ℤ◌, List, [], ◌∷◌, ◌++◌, Fault,
  if◌then◌else◌, length, length-set, get_elem?-lt, EndsIn, >>=-EndsIn, Result-cases, inl, inr,
  arith, All, All-append, All-set, All-get_elem?,
}
use weak_memory_models_mock.Storage.Manager.{Operation, perform, thread_of, Addresses}
use weak_memory_models_mock.Storage.Tso.Buffer.{Buffer, InRange}
use weak_memory_models_mock.Storage.Tso.{Tso, UpdateManager, internal_update}
use weak_memory_models_mock.Storage.Tso
use weak_memory_models_mock.Storage.Tso.Flush.{IsValid}
use weak_memory_models_mock.Storage.Tso.Calls.{perform-Completes}
use weak_memory_models_mock.Storage.Tso.Progress.{Covers, Updates, internal_update_lem}
use weak_memory_models_mock.Storage.Tso.Machine.{view, Label, committing, stop, follow, commits_of}
use weak_memory_models_mock.Storage.Tso.Refines.{Implements, perform-Refines}
use weak_memory_models_mock.Storage.Tso.Supplies.{Holds, Supplies, Observes, Steps-Holds}
use weak_memory_models_mock.Storage.Turns.{Turn, interleave, Brings, Admits, Returned}

module _ (P : ℤ → Type 0) where
  commits_of-Supplies : (t : ℕ) (b : Buffer) → All (Supplies P) (commits_of t b)
  commits_of-Supplies t [] = tt
  commits_of-Supplies t (i ∷ b) = (tt, commits_of-Supplies t b)

  last_label :
      (t : ℕ) (b : Buffer) (l : Label) {ls : List Label}
      → Supplies P l
      → ls ≡ commits_of t b ++ (l ∷ [])
      → All (Supplies P) ls
  last_label t b l h e =
      rw e (All-append (Supplies P) (commits_of t b) (l ∷ []) (commits_of-Supplies t b) (h, tt))

  Implements-Supplies :
      (op : Operation) (b : Buffer) (r : Option ℤ) (ls : List Label)
      → Brings P op
      → Implements op b r ls
      → All (Supplies P) ls
  Implements-Supplies (Operation.load t a o) b none ls h k = absurd k
  Implements-Supplies (Operation.load t a o) b (some v) ls h k = rw k (tt, tt)
  Implements-Supplies (Operation.store t a v o) b r ls h k = rw k.1 (h, tt)
  Implements-Supplies (Operation.compare_and_swap t a expected new o) b r ls h (_, x, e) =
      last_label t b _ (either (x ==ℤ expected)) e
    where
      either : (c : Bool) → P x → P (if c then new else x)
      either true p = h
      either false p = p
  Implements-Supplies (Operation.fetch_and_increment t a i o) b r ls h (_, x, y, q, e) =
      last_label t b _ (λ p. h x y p q) e
  Implements-Supplies (Operation.fence t o) b r ls h k = last_label t b _ tt k.1

  Implements-Returned :
      (op : Operation) (b : Buffer) (r : Option ℤ) (ls : List Label)
      → Implements op b r ls
      → All (Observes P) ls
      → Returned P r
  Implements-Returned (Operation.load t a o) b none ls k h = absurd k
  Implements-Returned (Operation.load t a o) b (some v) ls k h = let h' = rw k at h in h'.0
  Implements-Returned (Operation.store t a v o) b r ls k h = rw k.0 tt
  Implements-Returned (Operation.compare_and_swap t a x y o) b r ls k h = rw k.0 tt
  Implements-Returned (Operation.fetch_and_increment t a i o) b r ls k h = rw k.0 tt
  Implements-Returned (Operation.fence t o) b r ls k h = rw k.0 tt

  -- A valid state of so many threads and addresses whose values all have the property.
  pub record IsSupplied (n k : ℕ) (s : Tso) : Type 0 where
    pub valid : IsValid s
    pub threads : length s.thread_buffers ≡ n
    pub size : length s.storage ≡ k
    pub holds : Holds P (view s)

  module _ {M : Type 0} (u : UpdateManager M) (covers : (m : M) (s : Tso) → Covers u m s)
      (n k : ℕ) where
    call-IsSupplied :
        (op : Operation) (x : M × Tso)
        → IsSupplied n k x.1
        → Admits P n k (Turn.call op)
        → EndsIn
            (λ fault. fault ≡ Fault.overflow)
            (λ (r : Option ℤ × (M × Tso)). Returned P r.0 × IsSupplied n k r.1.1)
            (perform (Tso.manager u) op x)
    call-IsSupplied op x h (below, address, brings) =
        let (b, here) =
          get_elem?-lt x.1.thread_buffers (thread_of op) (omega (arith, h.threads, below)) in
        let address' : Addresses (length x.1.storage) op = rw h.size address in
        let refines = perform-Refines u x.0 x.1 op b h.valid here address' in
        let completes =
          perform-Completes u x.0 x.1 op h.valid (omega (arith, h.threads, below)) address' in
        elim (Result-cases (perform (Tso.manager u) op x)) [
          | inr (fault, e) ↦ let refines' = rw e at refines in rw e refines'
          | inl (r, e) ↦
              let (ls, steps, implements) = rw e at refines in
              let done = rw e at completes in
              let (holds, seen) =
                Steps-Holds P steps h.holds (Implements-Supplies op b r.0 ls brings implements) in
              rw e (
                Implements-Returned op b r.0 ls implements seen,
                record {
                  valid = done.0;
                  threads = done.2 ∙ h.threads;
                  size = done.1 ∙ h.size;
                  holds = holds;
                },
              )
        ]

    updated : (s : Tso) (r : Bool × Tso) → IsSupplied n k s → Updates s r → IsSupplied n k r.1
    updated s (false, s') h (same, _) = rw same h
    updated s (true, s') h (t, i, b, here, e) =
        let range = All-get_elem? (InRange (length s.storage)) s.thread_buffers t h.valid here in
        let size = length-set s.storage i.address i.value in
        let (holds, _) =
          Steps-Holds P (follow (committing {t = t} {i = i} {queue = b} here refl) stop) h.holds
            (tt, tt) in
        rw e (record {
          valid =
              rw size (All-set (InRange (length s.storage)) s.thread_buffers t b range.1 h.valid);
          threads = length-set s.thread_buffers t b ∙ h.threads;
          size = size ∙ h.size;
          holds = holds;
        })

    -- No value comes out of thin air under TSO. Whatever the threads call and whenever the memory
    -- updates itself, in whatever order, every value that a load returns has any property that the
    -- values of the memory and of the buffers have at the start, that all values have that are stored or
    -- swapped in, and that the increments keep. The calls are by threads and to addresses that exist,
    -- the update manager offers each thread once, and the only fault is an increment that overflows.
    pub interleave-Returned :
        (turns : List Turn) (x : M × Tso)
        → IsSupplied n k x.1
        → All (Admits P n k) turns
        → EndsIn
            (λ fault. fault ≡ Fault.overflow)
            (λ (r : List (Option ℤ) × (M × Tso)). All (Returned P) r.0 × IsSupplied n k r.1.1)
            (interleave (Tso.manager u) turns x)
    unfolding interleave
    interleave-Returned [] x h admits = (tt, h)
    interleave-Returned (Turn.call op ∷ turns) x h admits =
        >>=-EndsIn (λ fault. fault ≡ Fault.overflow) _ _ (perform (Tso.manager u) op x) _
          (call-IsSupplied op x h admits.0)
          (λ r supplied.
            >>=-EndsIn (λ fault. fault ≡ Fault.overflow) _ _ (interleave (Tso.manager u) turns r.1)
              _ (interleave-Returned turns r.1 supplied.1 admits.1)
              (λ rest all. ((supplied.0, all.0), all.1)))
    interleave-Returned (Turn.update ∷ turns) x h admits =
        let (r, m', s', e, w) = internal_update_lem u x.0 x.1 h.valid (covers x.0 x.1) in
        rw e (interleave-Returned turns (m', s') (updated x.1 (r, s') h w) admits.1)
