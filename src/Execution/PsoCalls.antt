-- ===== src/Execution/PsoCalls.antt =====
-- The operations of the PSO manager, whatever addresses the programs use.
use weak_memory_models_mock.Base.{
  ℕ, ◌<◌, ◌≡◌, refl, ◌∙◌, Option, none, some, Bool, true, false, ℤ, ◌==ℤ◌, add32, ok, ◌>>=◌,
  if◌then◌else◌, List, [], ◌∷◌, at, set, get_elem?, get_elem?-some, length, length-set, indices,
  All-get_elem?, All-set, Option-cases, inl, inr, EndsIn, EndsIn-map, >>=-EndsIn, IsProper, arith,
}
use weak_memory_models_mock.Storage.AccessMode.{AccessMode}
use weak_memory_models_mock.Storage.Memory.{Storage}
use weak_memory_models_mock.Storage.Memory
use weak_memory_models_mock.Storage.Logger.{Entry}
use weak_memory_models_mock.Storage.Pso.Buffers.{ThreadBuffer, AddressBuffer}
use weak_memory_models_mock.Storage.Pso.Buffers
use weak_memory_models_mock.Storage.Pso.{
  Pso, flush_buffer, flush_all, load, store, compare_and_swap, fetch_and_increment, fence,
}
use weak_memory_models_mock.Storage.Pso
use weak_memory_models_mock.Storage.Pso.Overlay.{length-drain}
use weak_memory_models_mock.Storage.Pso.Flush.{IsValid, flushed, flush_buffer-address}
use weak_memory_models_mock.Execution.Steps.{at_lem}
use weak_memory_models_mock.Execution.Memories.{Any, add32_lem}

-- A valid state with as many threads and addresses as before.
pub record Keeps (s s' : Pso) : Type 0 where
  pub valid : IsValid s'
  pub threads : length s'.thread_buffers ≡ length s.thread_buffers
  pub size : length s'.storage ≡ length s.storage

pub Keeps-refl : (s : Pso) → IsValid s → Keeps s s
Keeps-refl s v = record { valid = v; threads = refl; size = refl }

pub Keeps-trans : (s s' s'' : Pso) → Keeps s s' → Keeps s' s'' → Keeps s s''
Keeps-trans s s' s'' h k = record {
  valid = k.valid;
  threads = k.threads ∙ h.threads;
  size = k.size ∙ h.size;
}

-- A thread's buffers, as many as the storage has addresses, put back.
pub set_buffers :
    (s s' : Pso) (t : ℕ) (tb : ThreadBuffer)
    → IsValid s
    → length s'.storage ≡ length s.storage
    → s'.thread_buffers ≡ set s.thread_buffers t tb
    → length tb ≡ length s.storage
    → Keeps s s'
set_buffers s s' t tb v size e wide = record {
  valid = rw (size, e) (All-set (λ x. length x ≡ length s.storage) s.thread_buffers t tb wide v);
  threads = rw e (length-set s.thread_buffers t tb);
  size = size;
}

pub wide :
    (s : Pso) (t : ℕ) {tb : ThreadBuffer}
    → IsValid s
    → get_elem? s.thread_buffers t ≡ some tb
    → length tb ≡ length s.storage
wide s t v here = All-get_elem? (λ x. length x ≡ length s.storage) s.thread_buffers t v here

pub flush_buffer_ends :
    (s : Pso) (t a : ℕ) → IsValid s → EndsIn IsProper (Keeps s) (flush_buffer s t a)
flush_buffer_ends s t a v = elim (Option-cases (get_elem? s.thread_buffers t)) [
  | inl e ↦ unfold flush_buffer in rw e tt
  | inr (tb, here) ↦ elim (Option-cases (get_elem? tb a)) [
    | inl e ↦ unfold flush_buffer Buffers.get_buffer in rw (here, e) tt
    | inr (b, e) ↦
        let below : a < length s.storage =
          let k = get_elem?-some tb a e in let w = wide s t v here in omega (arith, k, w) in
        rw (flush_buffer-address s t a tb b here e below) (
          set_buffers s (flushed s t a tb b) t (set tb a []) v
            (unfold flushed in length-drain a b s.storage) (unfold flushed in refl)
            (length-set tb a [] ∙ wide s t v here))
  ]
]

flush_all_ends :
    (addresses : List ℕ) (s : Pso) (t : ℕ)
    → IsValid s
    → EndsIn IsProper (Keeps s) (flush_all addresses s t)
unfolding flush_all
flush_all_ends [] s t v = Keeps-refl s v
flush_all_ends (a ∷ rest) s t v =
    >>=-EndsIn IsProper (Keeps s) (Keeps s) (flush_buffer s t a) _ (flush_buffer_ends s t a v)
      (λ s' k.
        EndsIn-map IsProper (Keeps s') (Keeps s) (flush_all rest s' t)
          (λ s'' k'. Keeps-trans s s' s'' k k') (flush_all_ends rest s' t k.valid))

-- The storage changed at one address, and the log.
store_lem :
    (s s₂ : Pso) (a : ℕ) (x : ℤ)
    → Keeps s s₂
    → EndsIn IsProper
        (Keeps s)
        (Memory.store s₂.storage a x >>= λ storage. ok (record s₂ { storage = storage }))
store_lem s s₂ a x k = elim (Option-cases (get_elem? s₂.storage a)) [
  | inl e ↦ rw e tt
  | inr (y, e) ↦
      let size = length-set s₂.storage a x in
      rw e (record { valid = rw size k.valid; threads = k.threads; size = size ∙ k.size })
]

relogged :
    (s s' s'' : Pso)
    → Keeps s s'
    → s''.storage ≡ s'.storage
    → s''.thread_buffers ≡ s'.thread_buffers
    → Keeps s s''
relogged s s' s'' k e f = record {
  valid = rw (e, f) k.valid;
  threads = rw f k.threads;
  size = rw e k.size;
}

pub load_ends :
    (s : Pso) (t a : ℕ) (o : AccessMode)
    → IsValid s
    → EndsIn IsProper (λ (r : ℤ × Pso). Keeps s r.1) (load s t a o)
unfolding load
load_ends s t a o v =
    >>=-EndsIn IsProper Any _ (at s.thread_buffers t) _ (at_lem s.thread_buffers t) (λ tb _.
      >>=-EndsIn IsProper Any _ (Buffers.find tb a) _ (find_lem tb) (λ x _.
        >>=-EndsIn IsProper Any _ (elim x [ some v ↦ ok v | none ↦ Memory.load s.storage a ]) _
          (found x) (λ y _. relogged s s _ (Keeps-refl s v) refl refl)))
  where
    find_lem : (tb : ThreadBuffer) → EndsIn IsProper Any (Buffers.find tb a)
    find_lem tb = elim (Option-cases (get_elem? tb a)) [
      | inl e ↦ unfold Buffers.find in rw e tt
      | inr (b, e) ↦ unfold Buffers.find in rw e tt
    ]

    found :
        (x : Option ℤ)
        → EndsIn IsProper Any (elim x [ some v ↦ ok v | none ↦ Memory.load s.storage a ])
    found none = at_lem s.storage a
    found (some v) = tt

pub store_ends :
    (s : Pso) (t a : ℕ) (x : ℤ) (o : AccessMode)
    → IsValid s
    → EndsIn IsProper (Keeps s) (store s t a x o)
store_ends s t a x o v = elim (Option-cases (get_elem? s.thread_buffers t)) [
  | inl e ↦ unfold store in rw e tt
  | inr (tb, here) ↦ elim (Option-cases (get_elem? tb a)) [
    | inl e ↦ unfold store Buffers.push_at in rw (here, e) tt
    | inr (b, e) ↦
        unfold store Buffers.push_at in
        rw (here, e)
          (set_buffers s _ t (set tb a (Buffers.push b x)) v refl refl
            (length-set tb a (Buffers.push b x) ∙ wide s t v here))
  ]
]

pub compare_and_swap_ends :
    (s : Pso) (t a : ℕ) (x y : ℤ) (o : AccessMode)
    → IsValid s
    → EndsIn IsProper (Keeps s) (compare_and_swap s t a x y o)
unfolding compare_and_swap
compare_and_swap_ends s t a x y o v =
    >>=-EndsIn IsProper (Keeps s) (Keeps s) (flush_buffer s t a) _ (flush_buffer_ends s t a v)
      (λ s₁ k. >>=-EndsIn IsProper Any (Keeps s) (at s₁.storage a) _ (at_lem s₁.storage a) (λ c _.
        swap (c ==ℤ x) (Pso.logged s₁ (Entry.compare_and_swap t a x (some c) y o))
          (relogged s s₁ _ k refl refl)))
  where
    swap :
        (b : Bool) (s₂ : Pso)
        → Keeps s s₂
        → EndsIn IsProper (Keeps s) (
            if b
            then (Memory.store s₂.storage a y >>= λ storage. ok (record s₂ { storage = storage }))
            else ok s₂)
    swap true s₂ k = store_lem s s₂ a y k
    swap false s₂ k = k

pub fetch_and_increment_ends :
    (s : Pso) (t a : ℕ) (i : ℤ) (o : AccessMode)
    → IsValid s
    → EndsIn IsProper (Keeps s) (fetch_and_increment s t a i o)
unfolding fetch_and_increment
fetch_and_increment_ends s t a i o v =
    >>=-EndsIn IsProper (Keeps s) (Keeps s) (flush_buffer s t a) _ (flush_buffer_ends s t a v)
      (λ s₁ k. >>=-EndsIn IsProper Any (Keeps s) (at s₁.storage a) _ (at_lem s₁.storage a) (λ c _.
        >>=-EndsIn IsProper Any (Keeps s) (add32 c i) _ (add32_lem c i) (λ sum _.
          store_lem s (Pso.logged s₁ (Entry.fetch_and_increment t a i o false)) a sum
            (relogged s s₁ _ k refl refl))))

pub fence_ends :
    (s : Pso) (t : ℕ) (o : AccessMode) → IsValid s → EndsIn IsProper (Keeps s) (fence s t o)
unfolding fence
fence_ends s t o v =
    >>=-EndsIn IsProper (Keeps s) (Keeps s) (flush_all (indices 0 (Memory.size s.storage)) s t) _
      (flush_all_ends (indices 0 (Memory.size s.storage)) s t v)
      (λ s₁ k. relogged s s₁ _ k refl refl)
