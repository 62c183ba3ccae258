-- ===== src/Storage/Pso/Random.antt =====
-- `internalUpdate` under PSO with the random update manager, whose pairs are those of all resets.
use native.Mathlib.Nat.{add-zero}
use native.Mathlib.Decide.{ℕ_discrete}
use weak_memory_models_mock.Base.{
  ℕ, suc, ◌+◌, ◌<◌, ◌≡◌, refl, sym, ap, subst, Bool, true, false, ◌&&◌, ◌==◌, none, some, List, [],
  ◌∷◌, ◌++◌, arith, length, get_elem?, All, All-append, All-count_if, EndsIn, >>=-EndsIn, Fault,
  Option, Option-cases, count_if, ok, err, Result, ◌>>=◌, inl, inr, Shuffle, zero, if◌then◌else◌,
}
use weak_memory_models_mock.Storage.Pso.{
  Pso, UpdateManager, propagate, update_loop, internal_update,
}
use weak_memory_models_mock.Storage.Pso.Flush.{IsValid}
use weak_memory_models_mock.Storage.Pso.Updates.{Random, random, random_rounds, table}
use weak_memory_models_mock.Storage.Pso.Table.{All-append_inv}
use weak_memory_models_mock.Storage.Pso.Progress.{
  Enumerates, done, more, IsEmpty, InRange, Updates, update_loop_lem, every_buffer, table-InRange,
  random-reset_grows,
}

add_suc_shift : (k i : ℕ) → k + suc i ≡ suc k + i
add_suc_shift k i = omega arith

-- Pairs as elements that are counted.
same_pair : ℕ × ℕ → ℕ × ℕ → Bool
same_pair p q = (p.0 == q.0) && (p.1 == q.1)

same_pair_refl : (p : ℕ × ℕ) → same_pair p p ≡ true
unfolding same_pair
same_pair_refl p = ground arith

same_pair_lem : (p q : ℕ × ℕ) → same_pair p q ≡ true → p ≡ q
unfolding same_pair
same_pair_lem p q h = elim (ℕ_discrete p.0 q.0) [
  | no e ↦ absurd (ground (arith, h, e))
  | yes e ↦ elim (ℕ_discrete p.1 q.1) [ no f ↦ absurd (ground (arith, h, f)) | yes f ↦ cc ]
]

each_of_count :
    (P : ℕ × ℕ → Type 0) (xs : List (ℕ × ℕ))
    → ((p : ℕ × ℕ) → 0 < count_if (λ x. same_pair x p) xs → P p)
    → All P xs
each_of_count P [] h = tt
each_of_count P (p ∷ xs) h =
    (h p (rw (same_pair_refl p) (omega arith)), each_of_count P xs (λ q k. h q (ground (arith, k))))

All-count :
    (P : ℕ × ℕ → Type 0) (xs : List (ℕ × ℕ)) (p : ℕ × ℕ)
    → All P xs
    → 0 < count_if (λ x. same_pair x p) xs
    → P p
All-count P xs p all h =
    let (x, e, holds) = All-count_if P (λ x. same_pair x p) xs all h in
    subst P (same_pair_lem x p e) holds

-- What holds of all elements of a list holds of those in any order that has as many of each.
All-permuted :
    (P : ℕ × ℕ → Type 0) (xs ys : List (ℕ × ℕ))
    → ((p : ℕ × ℕ → Bool) → count_if p ys ≡ count_if p xs)
    → All P xs
    → All P ys
All-permuted P xs ys same all =
    each_of_count P ys (λ p h. All-count P xs p all (rw (same (λ x. same_pair x p)) at h))

-- A property of the update manager's state that drawing a pair keeps.
Anything : Fault → Type 0
Anything fault = Unit

update_loop-Keeps :
    {M : Type 0} (u : UpdateManager M) (P : M → Type 0)
    → ((m : M) → P m → P (u.get_thread_id_and_address m).1)
    → (fuel : ℕ) (m : M) (s : Pso) → P m
    → EndsIn Anything (λ (r : Bool × M × Pso). P r.1) (update_loop u fuel m s)
unfolding update_loop Anything
update_loop-Keeps u P step zero m s h = tt
update_loop-Keeps {M} u P step (suc fuel) m s h =
    let m' = (u.get_thread_id_and_address m).1 in
    offered (u.get_thread_id_and_address m).0 m' (step m h)
      (λ s'. update_loop-Keeps u P step fuel m' s' (step m h))
  where
    Keeps : Result (Bool × M × Pso) → Type 0
    Keeps r = EndsIn Anything (λ (r : Bool × M × Pso). P r.1) r

    trivially : {A : Type 0} (r : Result A) → EndsIn Anything (λ x. Unit {0}) r
    trivially (ok a) = tt
    trivially (err e) = tt

    either :
        (b : Bool) (s' : Pso) (m' : M) (r : Result (Bool × M × Pso))
        → P m'
        → Keeps r
        → Keeps (if b then ok (true, m', s') else r)
    either true s' m' r h k = h
    either false s' m' r h k = k

    offered :
        (next : Option (ℕ × ℕ)) (m' : M)
        → P m'
        → ((s' : Pso) → Keeps (update_loop u fuel m' s'))
        → Keeps (elim next [
          | none ↦ ok (false, m', s)
          | some pair ↦ propagate s pair.0 pair.1 >>= λ r.
              let rest = update_loop u fuel m' r.1 in if r.0 then ok (true, m', r.1) else rest
        ])
    offered none m' h rest = h
    offered (some pair) m' h rest =
        >>=-EndsIn Anything (λ x. Unit {0}) _ (propagate s pair.0 pair.1) _ (trivially _)
          (λ r x. either r.0 r.1 m' (update_loop u fuel m' r.1) h (rest r.1))

module _ (sh : Shuffle) where
  random-Enumerates :
      (xs pairs : List (ℕ × ℕ)) (k : ℕ) (g : sh.Generator)
      → ((i : ℕ) → get_elem? pairs (k + i) ≡ get_elem? xs i)
      → Enumerates (random sh) (record { pairs = pairs; next_index = k; random_generator = g }) xs
  unfolding random
  random-Enumerates [] pairs k g h =
      let e : get_elem? pairs k ≡ none = rw (add-zero k) at (h 0) in
      done {m' = record { pairs = pairs; next_index = k; random_generator = g }} (rw (e, random))
  random-Enumerates (p ∷ xs) pairs k g h =
      let e : get_elem? pairs k ≡ some p = rw (add-zero k) at (h 0) in
      more {m' = record { pairs = pairs; next_index = suc k; random_generator = g }}
        (rw (e, random))
        (random-Enumerates xs pairs (suc k) g (λ i. rw (add_suc_shift k i) at (h (suc i))))

  random-HasPairs :
      (ps : List (ℕ × ℕ)) (m : Random sh.Generator)
      → m.pairs ≡ ps
      → ((random sh).get_thread_id_and_address m).1.pairs ≡ ps
  unfolding random
  random-HasPairs ps m h = elim (Option-cases (get_elem? m.pairs m.next_index)) [
    | inl e ↦ rw (random, e) h
    | inr (p, e) ↦ rw (random, e) h
  ]

  -- With the random update manager, whatever order the shuffle gives, an internal update of a valid
  -- state ends within a round for each pair of earlier resets, one for each buffer and one more, where
  -- the earlier pairs name buffers; and so do the pairs afterwards. If it reports that nothing was done
  -- then no thread has anything buffered and the state is unchanged, else the oldest store of one buffer
  -- has reached the storage.
  pub pso_random_progress :
      (m : Random sh.Generator) (s : Pso)
      → IsValid s
      → All (InRange s) m.pairs
      → (r : Bool) × (m' : Random sh.Generator) × (s' : Pso) × (internal_update
            (random sh)
            (random_rounds m s)
            m
            s
          ≡ ok (r, m', s'))
        × Updates s (r, s')
        × All (InRange s) m'.pairs
  unfolding internal_update
  pso_random_progress m s v h =
      let m₁ = (random sh).reset m s in
      let ps = m₁.pairs in
      let before = m.pairs ++ table 0 (length s.thread_buffers) (length s.storage) in
      let same : (p : ℕ × ℕ → Bool) → count_if p ps ≡ count_if p before =
        λ p. unfold random in sh.count-shuffle (ℕ × ℕ) m.random_generator before p in
      let fits =
        All-permuted (InRange s) before ps same
          (All-append (InRange s) m.pairs _ h (table-InRange s)) in
      let fuel = random_rounds m s in
      let (r, m', s', e, w) =
        update_loop_lem (random sh) fuel m₁ ps s
          (unfold random in random-Enumerates ps ps 0 _ (λ i. ap (get_elem? ps) (omega arith)))
          (omega (arith, random-reset_grows sh m s)) v fits in
      let kept =
        rw e at
          (update_loop-Keeps (random sh) (λ m. m.pairs ≡ ps) (random-HasPairs ps) fuel m₁ s refl) in
      (
        r,
        m',
        s',
        e,
        every_buffer s ps (r, s')
            (λ all.
              (All-append_inv (IsEmpty s) m.pairs _
                (All-permuted (IsEmpty s) ps before (λ p. sym (same p)) all)).1)
            w,
        rw kept fits,
      )
