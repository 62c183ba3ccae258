-- ===== src/Storage/Solo.antt =====
-- A thread that runs alone over a storage manager, beside one over the sequentially consistent
-- manager: the record `Solo` is what the two have to agree on in each step.
use weak_memory_models_mock.Base.{
  ℕ, ◌<◌, ◌≡◌, refl, ap, ◌∙◌, Bool, Option, ℤ, List, [], ◌∷◌, length, All, ok, err, Result, ◌>>=◌,
}
use weak_memory_models_mock.Storage.Manager.{
  StorageManager, Operation, perform, thread_of, Addresses,
}
use weak_memory_models_mock.Storage.Sc.{Sc}
use weak_memory_models_mock.Storage.Sc

-- Two runs of a call agree: they return the same and leave states that are related, or end at the
-- same fault.
abbrev pub Agree :
    {S : Type 0} → (S → Sc → Type 0) → Result (Option ℤ × S) → Result (Option ℤ × Sc) → Type 0
Agree Sees (ok (x, s)) (ok (y, m)) = (x ≡ y) × Sees s m
Agree Sees (err e) (err f) = e ≡ f
Agree Sees _ _ = ⊥

-- What happens to a manager while one thread runs: the thread makes a call, or a store that it has
-- buffered reaches the storage (for PSO, of the buffer for an address).
pub data Event : Type 0 where
  call : Operation → Event
  update : (address : ℕ) → Event

-- The event is a call by thread `t` to an address below `n`, or an update.
abbrev pub Own : ℕ → ℕ → Event → Type 0
Own t n (call op) = (thread_of op ≡ t) × Addresses n op
Own t n (update a) = a < n

-- The values that the calls of thread `t` return, with `propagate` for the updates.
module _ {S : Type 0} (manager : StorageManager S) (propagate : S → ℕ → ℕ → Result (Bool × S))
    (t : ℕ) where
  unfoldable pub run : List Event → S → Result (List (Option ℤ))
  run [] s = ok []
  run (call op ∷ es) s = perform manager op s >>= λ r. run es r.1 >>= λ rest. ok (r.0 ∷ rest)
  run (update a ∷ es) s = propagate s t a >>= λ r. run es r.1

-- The same calls of the sequentially consistent manager, which buffers nothing.
unfoldable pub run_sc : List Event → Sc → Result (List (Option ℤ))
run_sc [] m = ok []
run_sc (call op ∷ es) m = perform Sc.manager op m >>= λ r. run_sc es r.1 >>= λ rest. ok (r.0 ∷ rest)
run_sc (update a ∷ es) m = run_sc es m

pub record Solo (S : Type 0) (t : ℕ) : Type 1 where
  pub manager : StorageManager S
  pub propagate : S → ℕ → ℕ → Result (Bool × S)
  pub Sees : S → Sc → Type 0
  pub agree :
      (s : S) (m : Sc) (op : Operation)
      → Sees s m
      → thread_of op ≡ t
      → Addresses (length m.storage) op
      → Agree Sees (perform manager op s) (perform Sc.manager op m)
  pub update :
      (s : S) (m : Sc) (a : ℕ)
      → Sees s m
      → a < length m.storage
      → (r : Bool) × (s' : S) × (propagate s t a ≡ ok (r, s')) × Sees s' m

module _ {S : Type 0} {t : ℕ} (i : Solo S t) where
  open i use {manager, propagate, Sees}

  continue :
      (n : ℕ) (es : List Event) (m : Sc) (r : Result (Option ℤ × S)) (q : Result (Option ℤ × Sc))
      → length m.storage ≡ n
      → Agree Sees r q
      → Sc.KeepsSize m q
      → ((s : S) (m' : Sc)
          → Sees s m'
          → length m'.storage ≡ n
          → run manager propagate t es s ≡ run_sc es m')
      → (r >>= λ r. run manager propagate t es r.1 >>= λ rest. ok (r.0 ∷ rest))
        ≡ (q >>= λ r. run_sc es r.1 >>= λ rest. ok (r.0 ∷ rest))
  continue n es m (ok (x, s)) (ok (y, m')) size (e, sees) keeps rest =
      rw (e, rest s m' sees (keeps ∙ size))
  continue n es m (err e) (err f) size agree keeps rest = ap err agree
  continue n es m (ok r) (err f) size agree keeps rest = absurd agree
  continue n es m (err e) (ok q) size agree keeps rest = absurd agree

  pub solo :
      (n : ℕ) (es : List Event) (s : S) (m : Sc)
      → Sees s m
      → length m.storage ≡ n
      → All (Own t n) es
      → run manager propagate t es s ≡ run_sc es m
  unfolding run run_sc
  solo n [] s m sees size own = refl
  solo n (call op ∷ es) s m sees size own =
      continue n es m (perform manager op s) (perform Sc.manager op m) size
        (i.agree s m op sees own.0.0 (rw size own.0.1)) (Sc.perform-KeepsSize op m)
        (λ s' m' sees' size'. solo n es s' m' sees' size' own.1)
  solo n (update a ∷ es) s m sees size own =
      let (r, s', e, sees') = i.update s m a sees (rw size own.0) in
      rw e (solo n es s' m sees' size own.1)
