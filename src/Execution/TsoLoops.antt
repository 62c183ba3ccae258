-- ===== src/Execution/TsoLoops.antt =====
-- The loops of the TSO manager, whatever addresses its buffers hold.
use weak_memory_models_mock.Base.{
  ℕ, zero, suc, ◌<◌, ◌≡◌, refl, ◌∙◌, ◌⊎◌, some, Bool, true, false, ℤ, ok, err, Fault, ◌>>=◌, List,
  [], ◌∷◌, get_elem?, get_elem?-lt, get_elem?-set_self, length, length-set, Option-cases,
  Result-cases, inl, inr, EndsIn, EndsIn-map, IsProper, arith, All,
}
use weak_memory_models_mock.Storage.Memory.{Storage}
use weak_memory_models_mock.Storage.Memory
use weak_memory_models_mock.Storage.Tso.Buffer.{Buffer, StoreInstruction}
use weak_memory_models_mock.Storage.Tso.Buffer
use weak_memory_models_mock.Storage.Tso.{
  Tso, UpdateManager, propagate, propagate_popped, flush_loop, flush_buffer, update_loop,
}
use weak_memory_models_mock.Storage.Tso.Flush.{propagated, propagate-nil}
use weak_memory_models_mock.Storage.Tso.Progress.{Enumerates, done, more, IsEmpty}

-- As many threads as before.
abbrev pub Keeps : Tso → Tso → Type 0
Keeps s s' = length s'.thread_buffers ≡ length s.thread_buffers

pub propagate-cases :
    (s : Tso) (t : ℕ) (i : StoreInstruction) (b : Buffer)
    → get_elem? s.thread_buffers t ≡ some (i ∷ b)
    → (propagate s t ≡ ok (true, propagated s t i b)) ⊎ (propagate s t ≡ err Fault.out_of_range)
unfolding propagate propagate_popped Buffer.pop
propagate-cases s t i b e = elim (Option-cases (get_elem? s.storage i.address)) [
  | inl f ↦ inr (rw (e, f))
  | inr (x, f) ↦ inl (rw (e, f))
]

pub flush_loop_ends :
    (b : Buffer) (fuel : ℕ) (s : Tso) (t : ℕ)
    → length b < fuel
    → get_elem? s.thread_buffers t ≡ some b
    → EndsIn IsProper (Keeps s) (flush_loop fuel s t)
unfolding flush_loop
flush_loop_ends b zero s t f e = elim f [ ]
flush_loop_ends [] (suc fuel) s t f e = rw (propagate-nil s t e) refl
flush_loop_ends (i ∷ b) (suc fuel) s t f e = elim (propagate-cases s t i b e) [
  | inr q ↦ rw (q, ◌>>=◌) tt
  | inl q ↦
      rw (q, ◌>>=◌)
        (EndsIn-map IsProper (Keeps (propagated s t i b)) (Keeps s)
          (flush_loop fuel (propagated s t i b) t) (λ s' h. h ∙ length-set s.thread_buffers t b)
          (flush_loop_ends b fuel (propagated s t i b) t (omega arith)
            (get_elem?-set_self s.thread_buffers t b e)))
]

pub flush_buffer_ends :
    (s : Tso) (t : ℕ) → t < length s.thread_buffers → EndsIn IsProper (Keeps s) (flush_buffer s t)
unfolding flush_buffer
flush_buffer_ends s t h =
    let (b, e) = get_elem?-lt s.thread_buffers t h in
    rw (e, ◌>>=◌) (flush_loop_ends b (suc (length b)) s t (omega arith) e)

-- The oldest store of one buffer has reached the storage.
abbrev pub Moved : Tso → Tso → Type 0
Moved s s' =
    (t : ℕ) × (i : StoreInstruction) × (b : Buffer) × (get_elem? s.thread_buffers t ≡ some (i ∷ b))
    × (s' ≡ propagated s t i b)

-- What an internal update gives: as many threads, and where it reports that nothing was done, the
-- same state, in which each thread that was offered has an empty buffer.
abbrev pub Turn : {M : Type 0} → Tso → List ℕ → Bool × M × Tso → Type 0
Turn s ids r =
    Keeps s r.2 × (r.0 ≡ false → (r.2 ≡ s) × All (IsEmpty s) ids) × (r.0 ≡ true → Moved s r.2)

pub update_loop_ends :
    {M : Type 0} (u : UpdateManager M) (fuel : ℕ) (m : M) (ids : List ℕ) (s : Tso)
    → Enumerates u m ids
    → length ids < fuel
    → All (λ t. t < length s.thread_buffers) ids
    → EndsIn IsProper (Turn s ids) (update_loop u fuel m s)
unfolding update_loop
update_loop_ends u zero m ids s en f h = absurd (omega arith)
update_loop_ends u (suc fuel) m [] s (done {m' = m'} e) f h =
    let q : update_loop u (suc fuel) m s ≡ ok (false, m', s) = rw (e, update_loop, e) in
    rw q (refl, (λ _. (refl, tt)), λ k. absurd (cc))
update_loop_ends {M} u (suc fuel) m (t ∷ ids) s (more {m' = m'} e en) f h =
    let (b, here) = get_elem?-lt s.thread_buffers t h.0 in
    step b here (update_loop_ends u fuel m' ids s en (omega arith) h.1)
  where
    step :
        (b : Buffer)
        → get_elem? s.thread_buffers t ≡ some b
        → EndsIn IsProper (Turn s ids) (update_loop u fuel m' s)
        → EndsIn IsProper (Turn s (t ∷ ids)) (update_loop u (suc fuel) m s)
    step [] here rest = elim (Result-cases (update_loop u fuel m' s)) [
      | inl (r, q) ↦
          let p : update_loop u (suc fuel) m s ≡ ok r =
            rw (e, update_loop, e, propagate-nil s t here, q) in
          let rest' = rw q at rest in
          rw p (rest'.0, (λ k. ((rest'.1 k).0, (here, (rest'.1 k).1))), rest'.2)
      | inr (x, q) ↦
          let p : update_loop u (suc fuel) m s ≡ err x =
            rw (e, update_loop, e, propagate-nil s t here, q) in
          let rest' = rw q at rest in rw p rest'
    ]
    step (i ∷ b) here rest = elim (propagate-cases s t i b here) [
      | inr q ↦
          let p : update_loop u (suc fuel) m s ≡ err Fault.out_of_range =
            rw (e, update_loop, e, q) in
          rw p tt
      | inl q ↦
          let p : update_loop u (suc fuel) m s ≡ ok (true, m', propagated s t i b) =
            rw (e, update_loop, e, q) in
          rw p (length-set s.thread_buffers t b, (λ k. absurd (cc)), λ k. (t, i, b, here, refl))
    ]

pub store_lem :
    (m : Storage) (a : ℕ) (x : ℤ) (s : Tso)
    → EndsIn IsProper
        (Keeps s)
        (Memory.store m a x >>= λ storage. ok (record s { storage = storage }))
store_lem m a x s = elim (Option-cases (get_elem? m a)) [ inl e ↦ rw e tt | inr (y, e) ↦ rw e refl ]
