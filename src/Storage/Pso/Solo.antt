-- ===== src/Storage/Pso/Solo.antt =====
-- One thread that runs alone over PSO, beside one over sequential consistency.
use weak_memory_models_mock.Base.{
  ℕ, ◌<◌, ◌≡◌, refl, sym, ap, ◌∙◌, Bool, true, false, some, ℤ, ◌==ℤ◌, add32, List, [], ◌∷◌, arith,
  length, set, get_elem?, get_elem?-set_self, get_elem?-lt, length-set, All, All-get_elem?, All-set,
  ok, Result, ◌>>=◌, Bool-cases, Result-cases, inl, inr, indices, All-indices, at, Option-cases,
  beyond,
}
use weak_memory_models_mock.Storage.AccessMode.{AccessMode}
use weak_memory_models_mock.Storage.Logger.{Log, Entry}
use weak_memory_models_mock.Storage.Manager.{Operation, perform, thread_of, Addresses}
use weak_memory_models_mock.Storage.Sc.{Sc}
use weak_memory_models_mock.Storage.Sc
use weak_memory_models_mock.Storage.Solo.{Solo, Agree, Event, Own, run, run_sc, solo as alone}
use weak_memory_models_mock.Storage.Pso.Buffers.{ThreadBuffer, AddressBuffer, push}
use weak_memory_models_mock.Storage.Pso.Buffers
use weak_memory_models_mock.Storage.Pso.Overlay.{
  overlay, drain, length-overlay, length-drain, get_elem?-overlay, overlay-push, overlay-propagate,
  overlay-set, overlay-drain,
}
use weak_memory_models_mock.Storage.Pso.{
  Pso, UpdateManager, propagate, flush_buffer, flush_all, load, store, compare_and_swap,
  fetch_and_increment, fence,
}
use weak_memory_models_mock.Storage.Pso
use weak_memory_models_mock.Storage.Pso.Flush.{
  IsValid, propagated, propagate-nil, propagate-cons, flushed, flush_buffer-address,
}

-- Where a thread has a buffer for each address, a load returns what a load from the storage that the
-- thread sees (the newest own value of each address, else that of the storage) would return, out of range
-- included.
pub load-eq-overlay :
    (s : Pso) (t : ℕ) (tb : ThreadBuffer) (a : ℕ) (o : AccessMode)
    → get_elem? s.thread_buffers t ≡ some tb
    → length tb ≡ length s.storage
    → load s t a o ≡ (
        at (overlay tb s.storage) a >>= λ value.
        ok (value, record s { log = Entry.load t a o value ∷ s.log }))
unfolding load Buffers.find
load-eq-overlay s t tb a o here wide = elim (Option-cases (get_elem? tb a)) [
  | inl q ↦
      rw (here, q, beyond (overlay tb s.storage) tb a (length-overlay tb s.storage ∙ sym wide) q)
        refl
  | inr (b, q) ↦ ground (arith, here, q, get_elem?-overlay tb s.storage a q wide)
]

-- Thread `t` sees in `s` the storage that `m` holds.
pub record Sees (t : ℕ) (s : Pso) (m : Sc) : Type 0 where
  pub buffers : ThreadBuffer
  pub here : get_elem? s.thread_buffers t ≡ some buffers
  pub valid : IsValid s
  pub same : m.storage ≡ overlay buffers s.storage

valid_set :
    (s : Pso) (t : ℕ) (tb : ThreadBuffer) (n : ℕ)
    → IsValid s
    → n ≡ length s.storage
    → length tb ≡ length s.storage
    → All (λ x. length x ≡ n) (set s.thread_buffers t tb)
valid_set s t tb n v e h = All-set (λ x. length x ≡ n) s.thread_buffers t tb (rw e h) (rw e v)

module _ (s : Pso) (t : ℕ) (m : Sc) (sees : Sees t s m) where
  open sees use {buffers, here, valid, same}

  wide : length buffers ≡ length s.storage
  wide = All-get_elem? (λ tb. length tb ≡ length s.storage) s.thread_buffers t valid here

  size_same : length m.storage ≡ length s.storage
  size_same = ap length same ∙ length-overlay buffers s.storage

  buffer_of : (a : ℕ) → a < length m.storage → (b : AddressBuffer) × (get_elem? buffers a ≡ some b)
  buffer_of a h = get_elem?-lt buffers a (omega (arith, wide, size_same))

  store-Sees :
      (a : ℕ) (b : AddressBuffer) (v : ℤ) (l l' : Log)
      → get_elem? buffers a ≡ some b
      → Sees t
          (record s { thread_buffers = set s.thread_buffers t (set buffers a (push b v)); log = l })
          (record m { storage = set m.storage a v; log = l' })
  store-Sees a b v l l' e = record {
    buffers = set buffers a (push b v);
    here = get_elem?-set_self s.thread_buffers t _ here;
    valid = valid_set s t _ (length s.storage) valid refl (length-set buffers a (push b v) ∙ wide);
    same = rw (overlay-push buffers s.storage a b v e, same);
  }

  flush-Sees :
      (a : ℕ) (b : AddressBuffer)
      → get_elem? buffers a ≡ some b
      → Sees t (flushed s t a buffers b) m
  unfolding flushed
  flush-Sees a b e = record {
    buffers = set buffers a [];
    here = get_elem?-set_self s.thread_buffers t _ here;
    valid =
        valid_set s t _ (length (drain a b s.storage)) valid (length-drain a b s.storage)
          (length-set buffers a [] ∙ wide);
    same = rw (overlay-drain b buffers s.storage a e) same;
  }

-- Where nothing is buffered for an address the thread works on the storage itself.
module _ (s : Pso) (t : ℕ) (m : Sc) (sees : Sees t s m) (a : ℕ)
    (clear : get_elem? sees.buffers a ≡ some []) where
  open sees use {buffers, here, valid, same}

  direct : get_elem? s.storage a ≡ get_elem? m.storage a
  unfolding Buffers.last
  direct = rw same (sym (get_elem?-overlay buffers s.storage a clear (wide s t m sees)))

  written :
      (v : ℤ) (l l' : Log)
      → Sees t
          (record s { storage = set s.storage a v; log = l })
          (record m { storage = set m.storage a v; log = l' })
  written v l l' = record {
    buffers = buffers;
    here = here;
    valid = rw (length-set s.storage a v) valid;
    same = rw (overlay-set buffers s.storage a v clear, same);
  }

relogged :
    (s : Pso) (t : ℕ) (m : Sc) (l l' : Log)
    → Sees t s m
    → Sees t (record s { log = l }) (record m { log = l' })
relogged s t m l l' sees = record {
  buffers = sees.buffers;
  here = sees.here;
  valid = sees.valid;
  same = sees.same;
}

pub flush_all-Sees :
    (rest : List ℕ) (s : Pso) (t : ℕ) (m : Sc)
    → Sees t s m
    → All (λ a. a < length m.storage) rest
    → (s' : Pso) × (flush_all rest s t ≡ ok s') × Sees t s' m
unfolding flush_all
flush_all-Sees [] s t m sees h = (s, refl, sees)
flush_all-Sees (a ∷ rest) s t m sees h =
    let (b, e) = buffer_of s t m sees a h.0 in
    let a' : a < length s.storage = omega (arith, h.0, size_same s t m sees) in
    let (s', q, sees') =
      flush_all-Sees rest (flushed s t a sees.buffers b) t m (flush-Sees s t m sees a b e) h.1 in
    (s', rw (flush_buffer-address s t a sees.buffers b sees.here e a', ◌>>=◌) q, sees')

-- What a compare-and-swap or an increment begins with.
record Flushed (s : Pso) (t a : ℕ) (m : Sc) : Type 0 where
  after : Pso
  flush : flush_buffer s t a ≡ ok after
  sees : Sees t after m
  clear : get_elem? sees.buffers a ≡ some []
  value : ℤ
  read : get_elem? after.storage a ≡ some value
  read_sc : get_elem? m.storage a ≡ some value

flush_first : (s : Pso) (t a : ℕ) (m : Sc) → Sees t s m → a < length m.storage → Flushed s t a m
unfolding flush-Sees
flush_first s t a m sees h =
    let (b, e) = buffer_of s t m sees a h in
    let (c, d) = get_elem?-lt m.storage a h in
    let after = flushed s t a sees.buffers b in
    let sees' = flush-Sees s t m sees a b e in
    let clear = get_elem?-set_self sees.buffers a [] e in
    let a' : a < length s.storage = omega (arith, h, size_same s t m sees) in
    record {
      after = after;
      flush = flush_buffer-address s t a sees.buffers b sees.here e a';
      sees = sees';
      clear = clear;
      value = c;
      read = direct after t m sees' a clear ∙ d;
      read_sc = d;
    }

module _ {M : Type 0} (u : UpdateManager M) (rounds : M → Pso → ℕ) (k : M) (s : Pso) (t : ℕ)
    (m : Sc) (sees : Sees t s m) where
  perform-Agree :
      (op : Operation)
      → thread_of op ≡ t
      → Addresses (length m.storage) op
      → Agree (λ k. Sees t k.1) (perform (Pso.manager u rounds) op (k, s)) (perform Sc.manager op m)
  unfolding store compare_and_swap fetch_and_increment fence Sc.load Sc.store Sc.compare_and_swap
      Sc.fetch_and_increment Sc.fence Buffers.find Buffers.push_at
  perform-Agree (Operation.load t' a o) e h =
      let (c, d) = get_elem?-lt m.storage a h in
      let d' : get_elem? (overlay sees.buffers s.storage) a ≡ some c = rw (← sees.same) d in
      rw (e, load-eq-overlay s t sees.buffers a o sees.here (wide s t m sees), d, d')
        (refl, relogged s t m _ _ sees)
  perform-Agree (Operation.store t' a v o) e h =
      let (b, q) = buffer_of s t m sees a h in
      let (c, d) = get_elem?-lt m.storage a h in
      rw (e, sees.here, q, d) (refl, store-Sees s t m sees a b v _ _ q)
  perform-Agree (Operation.compare_and_swap t' a x v o) e h =
      let f = flush_first s t a m sees h in
      elim (Bool-cases (f.value ==ℤ x)) [
        | inl q ↦
            rw (e, f.flush, f.read, f.read_sc, q) (refl, written f.after t m f.sees a f.clear v _ _)
        | inr q ↦ rw (e, f.flush, f.read, f.read_sc, q) (refl, relogged f.after t m _ _ f.sees)
      ]
  perform-Agree (Operation.fetch_and_increment t' a i o) e h =
      let f = flush_first s t a m sees h in
      elim (Result-cases (add32 f.value i)) [
        | inl (n, q) ↦
            rw (e, f.flush, f.read, f.read_sc, q) (refl, written f.after t m f.sees a f.clear n _ _)
        | inr (x, q) ↦ rw (e, f.flush, f.read, f.read_sc, q) refl
      ]
  perform-Agree (Operation.fence t' o) e h =
      let n = length s.storage in
      let (s', q, sees') =
        flush_all-Sees (indices 0 n) s t m sees
          (All-indices 0 n (length m.storage) (omega (arith, size_same s t m sees))) in
      rw (e, q) (refl, relogged s' t m _ _ sees')

propagate-Sees :
    (s : Pso) (t : ℕ) (m : Sc) (a : ℕ)
    → Sees t s m
    → a < length m.storage
    → (r : Bool) × (s' : Pso) × (propagate s t a ≡ ok (r, s')) × Sees t s' m
propagate-Sees s t m a sees h = let (b, e) = buffer_of s t m sees a h in step b e
  where
    step :
        (b : AddressBuffer)
        → get_elem? sees.buffers a ≡ some b
        → (r : Bool) × (s' : Pso) × (propagate s t a ≡ ok (r, s')) × Sees t s' m
    step [] e = (false, s, propagate-nil s t a sees.buffers sees.here e, sees)
    step (v ∷ b) e = (
      true,
      propagated s t a sees.buffers v b,
      propagate-cons s t a sees.buffers sees.here v b e (omega (arith, h, size_same s t m sees)),
      record {
        buffers = set sees.buffers a b;
        here = get_elem?-set_self s.thread_buffers t _ sees.here;
        valid =
            valid_set s t _ _ sees.valid (length-set s.storage a v)
              (length-set sees.buffers a b ∙ wide s t m sees);
        same = rw (overlay-propagate sees.buffers s.storage a v b e) sees.same;
      },
    )

abbrev pub propagates : {M : Type 0} → M × Pso → ℕ → ℕ → Result (Bool × (M × Pso))
propagates s t a = propagate s.1 t a >>= λ r. ok (r.0, (s.0, r.1))

pso_solo : {M : Type 0} → UpdateManager M → (M → Pso → ℕ) → (t : ℕ) → Solo (M × Pso) t
pso_solo u rounds t = record {
  manager = Pso.manager u rounds;
  propagate = propagates;
  Sees = λ s m. Sees t s.1 m;
  agree = λ s m op sees e h. perform-Agree u rounds s.0 s.1 t m sees op e h;
  update = λ s m a sees h.
      let (r, s', e, sees') = propagate-Sees s.1 t m a sees h in (r, (s.0, s'), rw e, sees');
}

-- A thread that runs alone cannot tell PSO from sequential consistency: whatever it calls, and
-- whenever and in whatever order of the addresses its buffered stores reach the storage, its calls
-- return the same values or stop at the same fault. The addresses lie in the storage.
pub run_pso-eq-run_sc :
    {M : Type 0} (u : UpdateManager M) (rounds : M → Pso → ℕ) (t n : ℕ) (es : List Event) (k : M)
    (s : Pso) (m : Sc)
    → Sees t s m
    → length m.storage ≡ n
    → All (Own t n) es
    → run (Pso.manager u rounds) propagates t es (k, s) ≡ run_sc es m
unfolding pso_solo
run_pso-eq-run_sc u rounds t n es k s m sees size own =
    alone (pso_solo u rounds t) n es (k, s) m sees size own
