-- ===== src/Storage/Tso/Solo.antt =====
-- One thread that runs alone over TSO, beside one over sequential consistency.
use weak_memory_models_mock.Base.{
  ℕ, ◌<◌, ◌≡◌, refl, sym, ap, ◌∙◌, Bool, true, false, some, ℤ, List, [], ◌∷◌, length, set,
  get_elem?, get_elem?-set_self, get_elem?-lt, All, All-get_elem?, All-set, ok, Result, ◌>>=◌,
  length-set, Bool-cases, inl, inr, ◌==ℤ◌, add32, Result-cases,
}
use weak_memory_models_mock.Storage.Logger.{Log}
use weak_memory_models_mock.Storage.Memory.{Storage}
use weak_memory_models_mock.Storage.Manager.{Operation, perform, thread_of, Addresses}
use weak_memory_models_mock.Storage.Sc.{Sc}
use weak_memory_models_mock.Storage.Sc
use weak_memory_models_mock.Storage.Solo.{Solo, Agree, Event, Own, run, run_sc, solo as alone}
use weak_memory_models_mock.Storage.Tso.Buffer.{
  Buffer, StoreInstruction, InRange, drain, length-drain, drain-push, push-InRange,
}
use weak_memory_models_mock.Storage.Tso.Buffer
use weak_memory_models_mock.Storage.Tso.{
  Tso, UpdateManager, load, store, compare_and_swap, fetch_and_increment, fence, propagate,
}
use weak_memory_models_mock.Storage.Tso
use weak_memory_models_mock.Storage.Tso.Flush.{
  IsValid, InRange-set, propagate-cons, propagate-nil, propagated,
}
use weak_memory_models_mock.Storage.Tso.Atomics.{
  seen, settle, load-eq-drained, compare_and_swap-eq-sc, fetch_and_increment-eq-sc, fence-eq-sc,
}

-- Thread `t` sees in `s` the storage that `m` holds.
pub record Sees (t : ℕ) (s : Tso) (m : Sc) : Type 0 where
  pub buffer : Buffer
  pub here : get_elem? s.thread_buffers t ≡ some buffer
  pub valid : IsValid s
  pub same : m.storage ≡ drain buffer s.storage

settle-Sees :
    (s : Tso) (t : ℕ) (b : Buffer) (m m' : Storage) (l l' : Log)
    → get_elem? s.thread_buffers t ≡ some b
    → IsValid s
    → m ≡ m'
    → length m ≡ length s.storage
    → Sees t
        (record { storage = m; thread_buffers = set s.thread_buffers t []; log = l })
        (record { storage = m'; log = l' })
unfolding Buffer.drain
settle-Sees s t b m m' l l' here v e n = record {
  buffer = [];
  here = get_elem?-set_self s.thread_buffers t [] here;
  valid = All-set (InRange (length m)) s.thread_buffers t [] tt (rw n v);
  same = sym e;
}

module _ (s : Tso) (t : ℕ) (m : Sc) (sees : Sees t s m) where
  open sees use {buffer, here, valid, same}

  cell :
      (a : ℕ)
      → a < length m.storage
      → (c : ℤ) × (get_elem? m.storage a ≡ some c) × (get_elem? (drain buffer s.storage) a ≡ some c)
  cell a h = let (c, e) = get_elem?-lt m.storage a h in (c, e, rw (← same) e)

  size_same : length m.storage ≡ length s.storage
  size_same = ap length same ∙ length-drain buffer s.storage

  store-Sees :
      (a : ℕ) (v : ℤ) (l l' : Log)
      → a < length m.storage
      → Sees t
          (record s {
            thread_buffers =
                set s.thread_buffers t (Buffer.push buffer (record { address = a; value = v }));
            log = l;
          })
          (record m { storage = set m.storage a v; log = l' })
  store-Sees a v l l' h = record {
    buffer = Buffer.push buffer (record { address = a; value = v });
    here = get_elem?-set_self s.thread_buffers t _ here;
    valid =
        All-set (InRange (length s.storage)) s.thread_buffers t _
          (push-InRange (length s.storage) buffer _
            (All-get_elem? (InRange (length s.storage)) s.thread_buffers t valid here)
            (rw size_same at h))
          valid;
    same = rw (drain-push buffer (record { address = a; value = v }) s.storage, same);
  }

  settled :
      (m₁ m₂ : Storage) (l l' : Log)
      → m₁ ≡ m₂
      → length m₁ ≡ length (drain buffer s.storage)
      → Sees t
          (record { storage = m₁; thread_buffers = set s.thread_buffers t []; log = l })
          (record { storage = m₂; log = l' })
  settled m₁ m₂ l l' e n =
      settle-Sees s t buffer m₁ m₂ l l' here valid e (n ∙ length-drain buffer s.storage)

  written :
      (a : ℕ) (v : ℤ) (l l' : Log)
      → Sees t
          (record {
            storage = set (drain buffer s.storage) a v;
            thread_buffers = set s.thread_buffers t [];
            log = l;
          })
          (record { storage = set m.storage a v; log = l' })
  written a v l l' =
      settled _ _ l l' (ap (λ c. set c a v) (sym same)) (length-set (drain buffer s.storage) a v)

  module _ {M : Type 0} (u : UpdateManager M) (k : M) where
    pub perform-Agree :
        (op : Operation)
        → thread_of op ≡ t
        → Addresses (length m.storage) op
        → Agree (λ k. Sees t k.1) (perform (Tso.manager u) op (k, s)) (perform Sc.manager op m)
    unfolding Sc.load Sc.store Sc.compare_and_swap Sc.fetch_and_increment Sc.fence seen settle store
    perform-Agree (Operation.load t' a o) e h =
        let (c, d, d') = cell a h in
        rw (e, load-eq-drained s t buffer valid here a o, d, d')
          (refl, record { buffer = buffer; here = here; valid = valid; same = same })
    perform-Agree (Operation.store t' a v o) e h =
        let (c, d, d') = cell a h in rw (e, here, d) (refl, store-Sees a v _ _ h)
    perform-Agree (Operation.compare_and_swap t' a x v o) e h =
        let (c, d, d') = cell a h in
        elim (Bool-cases (c ==ℤ x)) [
          | inl q ↦
              rw (e, compare_and_swap-eq-sc s t buffer valid here a x v o, d, d', q)
                (refl, written a v _ _)
          | inr q ↦
              rw (e, compare_and_swap-eq-sc s t buffer valid here a x v o, d, d', q)
                (refl, settled _ _ _ _ (sym same) refl)
        ]
    perform-Agree (Operation.fetch_and_increment t' a i o) e h =
        let (c, d, d') = cell a h in
        elim (Result-cases (add32 c i)) [
          | inl (n, q) ↦
              rw (e, fetch_and_increment-eq-sc s t buffer valid here a i o, d, d', q)
                (refl, written a n _ _)
          | inr (f, q) ↦
              rw (e, fetch_and_increment-eq-sc s t buffer valid here a i o, d, d', q) refl
        ]
    perform-Agree (Operation.fence t' o) e h =
        rw (e, fence-eq-sc s t buffer valid here o) (refl, settled _ _ _ _ (sym same) refl)

propagate-Sees :
    (s : Tso) (t : ℕ) (m : Sc) (b : Buffer)
    → get_elem? s.thread_buffers t ≡ some b
    → IsValid s
    → m.storage ≡ drain b s.storage
    → (r : Bool) × (s' : Tso) × (propagate s t ≡ ok (r, s')) × Sees t s' m
unfolding drain
propagate-Sees s t m [] here valid same = (
  false,
  s,
  propagate-nil s t here,
  record { buffer = []; here = here; valid = valid; same = same },
)
propagate-Sees s t m (i ∷ b) here valid same =
    let fits : InRange (length s.storage) (i ∷ b) =
      All-get_elem? (InRange (length s.storage)) s.thread_buffers t valid here in
    (
      true,
      propagated s t i b,
      propagate-cons s t i b here fits.0,
      record {
        buffer = b;
        here = get_elem?-set_self s.thread_buffers t b here;
        valid =
            All-set (InRange (length (set s.storage i.address i.value))) s.thread_buffers t b
              (InRange-set s.storage i.address i.value b fits.1)
              (rw (length-set s.storage i.address i.value) valid);
        same = same;
      },
    )

-- `propagate`; the buffer of a thread holds the stores to all addresses.
abbrev pub propagates : {M : Type 0} → M × Tso → ℕ → ℕ → Result (Bool × (M × Tso))
propagates s t a = propagate s.1 t >>= λ r. ok (r.0, (s.0, r.1))

tso_solo : {M : Type 0} → UpdateManager M → (t : ℕ) → Solo (M × Tso) t
tso_solo u t = record {
  manager = Tso.manager u;
  propagate = propagates;
  Sees = λ s m. Sees t s.1 m;
  agree = λ s m op sees e h. perform-Agree s.1 t m sees u s.0 op e h;
  update = λ s m a sees h.
      let (r, s', e, sees') = propagate-Sees s.1 t m sees.buffer sees.here sees.valid sees.same in
      (r, (s.0, s'), rw e, sees');
}

-- A thread that runs alone cannot tell TSO from sequential consistency: whatever it calls, and
-- whenever one of its buffered stores reaches the storage, its calls return the same values or
-- stop at the same fault. The addresses lie in the storage.
pub run_tso-eq-run_sc :
    {M : Type 0} (u : UpdateManager M) (t n : ℕ) (es : List Event) (k : M) (s : Tso) (m : Sc)
    → Sees t s m
    → length m.storage ≡ n
    → All (Own t n) es
    → run (Tso.manager u) propagates t es (k, s) ≡ run_sc es m
unfolding tso_solo
run_tso-eq-run_sc u t n es k s m sees size own = alone (tso_solo u t) n es (k, s) m sees size own
