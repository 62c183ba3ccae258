-- ===== src/Storage/Tso/Progress.antt =====
-- `internalUpdate` under TSO: when it ends, and what it has done.
use native.Mathlib.Nat.{add-zero}
use weak_memory_models_mock.Base.{
  ℕ, zero, suc, ◌+◌, ◌<◌, ◌≡◌, refl, ap, ◌∙◌, Bool, true, false, none, some, List, [], ◌∷◌, arith,
  length, get_elem?, get_elem?-lt, All, All-get_elem?, All-count, ok, indices, length-indices,
  count-indices, count-indices_lt, each_of_count, All-indices, length-shuffle, ◌==◌, Shuffle, count,
}
use weak_memory_models_mock.Storage.Tso.Buffer.{Buffer, StoreInstruction, InRange}
use weak_memory_models_mock.Storage.Tso.{Tso, UpdateManager, update_loop, internal_update}
use weak_memory_models_mock.Storage.Tso.Flush.{IsValid, propagated, propagate-nil, propagate-cons}
use weak_memory_models_mock.Storage.Tso.Updates.{Sequential, sequential, Random, random}

add_suc_shift : (k i : ℕ) → k + suc i ≡ suc k + i
add_suc_shift k i = omega arith

-- The update manager offers the threads of a list, and then none.
pub data Enumerates {M : Type 0} (u : UpdateManager M) : M → List ℕ → Type 0 where
  done : {m m' : M} → u.get_thread_id m ≡ (none, m') → Enumerates u m []
  more :
      {m m' : M} {t : ℕ} {ids : List ℕ}
      → u.get_thread_id m ≡ (some t, m')
      → Enumerates u m' ids
      → Enumerates u m (t ∷ ids)

-- What an internal update does: nothing, since nothing is buffered, or the oldest store of one
-- buffer reaches the storage.
abbrev pub Updates : Tso → Bool × Tso → Type 0
Updates s (false, s') =
    (s' ≡ s) × ((t : ℕ) → t < length s.thread_buffers → get_elem? s.thread_buffers t ≡ some [])
Updates s (true, s') =
    (t : ℕ) × (i : StoreInstruction) × (b : Buffer) × (get_elem? s.thread_buffers t ≡ some (i ∷ b))
    × (s' ≡ propagated s t i b)

abbrev pub IsEmpty : Tso → ℕ → Type 0
IsEmpty s t = get_elem? s.thread_buffers t ≡ some []

-- The same, over the threads that an update manager still offers.
abbrev UpdatesAmong : Tso → List ℕ → Bool × Tso → Type 0
UpdatesAmong s ids (false, s') = (s' ≡ s) × All (IsEmpty s) ids
UpdatesAmong s ids (true, s') =
    (t : ℕ) × (i : StoreInstruction) × (b : Buffer) × (get_elem? s.thread_buffers t ≡ some (i ∷ b))
    × (s' ≡ propagated s t i b)

widen :
    (s : Tso) (t : ℕ) (ids : List ℕ) (r : Bool × Tso)
    → IsEmpty s t
    → UpdatesAmong s ids r
    → UpdatesAmong s (t ∷ ids) r
widen s t ids (false, s') e (same, rest) = (same, (e, rest))
widen s t ids (true, s') e h = h

update_loop_lem :
    {M : Type 0} (u : UpdateManager M) (fuel : ℕ) (m : M) (ids : List ℕ) (s : Tso)
    → Enumerates u m ids
    → length ids < fuel
    → IsValid s
    → All (λ t. t < length s.thread_buffers) ids
    → (r : Bool) × (m' : M) × (s' : Tso) × (update_loop u fuel m s ≡ ok (r, m', s'))
      × UpdatesAmong s ids (r, s')
unfolding update_loop
update_loop_lem u zero m ids s en f v h = absurd (omega arith)
update_loop_lem u (suc fuel) m [] s (done {m' = m'} e) f v h =
    (false, m', s, rw (e, update_loop, e), (refl, tt))
update_loop_lem {M} u (suc fuel) m (t ∷ ids) s (more {m' = m'} e en) f v h =
    let (b, here) = get_elem?-lt s.thread_buffers t h.0 in
    step b here (All-get_elem? (InRange (length s.storage)) s.thread_buffers t v here)
      (update_loop_lem u fuel m' ids s en (omega arith) v h.1)
  where
    step :
        (b : Buffer)
        → get_elem? s.thread_buffers t ≡ some b
        → InRange (length s.storage) b
        → (r : Bool) × (m'' : M) × (s' : Tso) × (update_loop u fuel m' s ≡ ok (r, m'', s'))
          × UpdatesAmong s ids (r, s')
        → (r : Bool) × (m'' : M) × (s' : Tso) × (update_loop u (suc fuel) m s ≡ ok (r, m'', s'))
          × UpdatesAmong s (t ∷ ids) (r, s')
    step [] here fits (r, m'', s', q, w) = (
      r,
      m'',
      s',
      rw (e, update_loop, e, propagate-nil s t here, q),
      widen s t ids (r, s') here w,
    )
    step (i ∷ b) here fits (r, m'', s', q, w) = (
      true,
      m',
      propagated s t i b,
      rw (e, update_loop, e, propagate-cons s t i b here fits.0),
      (t, i, b, here, refl),
    )

-- From a list of threads in which every thread occurs.
every_thread :
    (s : Tso) (ids : List ℕ) (r : Bool × Tso)
    → ((t : ℕ) → t < length s.thread_buffers → 0 < count t ids)
    → UpdatesAmong s ids r
    → Updates s r
every_thread s ids (false, s') every (same, rest) =
    (same, λ t h. All-count (IsEmpty s) ids t rest (every t h))
every_thread s ids (true, s') every h = h

-- An update manager offers every thread, and each offer is a thread.
pub record Covers {M : Type 0} (u : UpdateManager M) (m : M) (s : Tso) : Type 0 where
  pub ids : List ℕ
  pub offers : Enumerates u (u.reset m s) ids
  pub size : length ids ≡ length s.thread_buffers
  pub threads : All (λ t. t < length s.thread_buffers) ids
  pub every : (t : ℕ) → t < length s.thread_buffers → 0 < count t ids

pub internal_update_lem :
    {M : Type 0} (u : UpdateManager M) (m : M) (s : Tso)
    → IsValid s
    → Covers u m s
    → (r : Bool) × (m' : M) × (s' : Tso) × (internal_update u m s ≡ ok (r, m', s'))
      × Updates s (r, s')
unfolding internal_update
internal_update_lem u m s v c =
    let (r, m', s', e, w) =
      update_loop_lem u (suc (length s.thread_buffers)) (u.reset m s) c.ids s c.offers
        (omega (arith, c.size)) v c.threads in
    (r, m', s', e, every_thread s c.ids (r, s') c.every w)

sequential-Enumerates :
    (n from max : ℕ)
    → max ≡ from + n
    → Enumerates sequential (record { next_thread_id = from; max_thread_id = max }) (indices from n)
unfolding sequential
sequential-Enumerates zero from max e =
    done {m' = record { next_thread_id = from; max_thread_id = max }} (ground arith)
sequential-Enumerates (suc n) from max e =
    more {m' = record { next_thread_id = suc from; max_thread_id = max }} (ground arith)
      (sequential-Enumerates n (suc from) max (omega arith))

pub sequential-Covers : (m : Sequential) (s : Tso) → Covers sequential m s
unfolding sequential
sequential-Covers m s = record {
  ids = indices 0 (length s.thread_buffers);
  offers =
      sequential-Enumerates (length s.thread_buffers) 0 (length s.thread_buffers) (omega arith);
  size = length-indices 0 (length s.thread_buffers);
  threads = All-indices 0 (length s.thread_buffers) (length s.thread_buffers) (omega arith);
  every = λ t h. count-indices 0 (length s.thread_buffers) t (omega arith) (omega arith);
}

-- With the sequential update manager an internal update of a valid state ends. If it reports that
-- nothing was done then no thread has anything buffered and the state is unchanged, else the oldest
-- store of one buffer has reached the storage.
pub tso_sequential_progress :
    (m : Sequential) (s : Tso)
    → IsValid s
    → (r : Bool) × (m' : Sequential) × (s' : Tso) × (internal_update sequential m s
        ≡ ok (r, m', s'))
      × Updates s (r, s')
unfolding sequential
tso_sequential_progress m s v = internal_update_lem sequential m s v (sequential-Covers m s)

module _ (sh : Shuffle) where
  random-Enumerates :
      (xs ids : List ℕ) (k : ℕ) (g : sh.Generator)
      → ((i : ℕ) → get_elem? ids (k + i) ≡ get_elem? xs i)
      → Enumerates
          (random sh)
          (record { thread_ids = ids; next_thread_id_index = k; random_generator = g })
          xs
  unfolding random
  random-Enumerates [] ids k g h =
      let e : get_elem? ids k ≡ none = rw (add-zero k) at (h 0) in
      done {m' = record { thread_ids = ids; next_thread_id_index = k; random_generator = g }}
        (rw (e, random))
  random-Enumerates (t ∷ xs) ids k g h =
      let e : get_elem? ids k ≡ some t = rw (add-zero k) at (h 0) in
      more {m' = record { thread_ids = ids; next_thread_id_index = suc k; random_generator = g }}
        (rw (e, random))
        (random-Enumerates xs ids (suc k) g (λ i. rw (add_suc_shift k i) at (h (suc i))))

  pub random-Covers : (m : Random sh.Generator) (s : Tso) → Covers (random sh) m s
  unfolding random
  random-Covers m s = record {
    ids = ids;
    offers = random-Enumerates ids ids 0 _ (λ i. ap (get_elem? ids) (omega arith));
    size = length-shuffle sh ℕ m.random_generator all ∙ length-indices 0 n;
    threads = each_of_count (λ t. t < n) ids (λ t h. below t (omega (arith, same t)));
    every = λ t h. omega (arith, same t, count-indices 0 n t);
  }
    where
      n : ℕ
      n = length s.thread_buffers

      all : List ℕ
      all = indices 0 n

      ids : List ℕ
      ids = (sh.shuffle ℕ m.random_generator all).0

      same : (t : ℕ) → count t ids ≡ count t all
      same t = sh.count-shuffle ℕ m.random_generator all (λ x. x == t)

      below : (t : ℕ) → 0 < count t all → t < n
      below t h = omega (arith, count-indices_lt 0 n t h)

  -- With the random update manager, and whatever order the shuffle gives, an internal update of a
  -- valid state ends. If it reports that nothing was done then no thread has anything buffered and
  -- the state is unchanged, else the oldest store of one buffer has reached the storage.
  pub tso_random_progress :
      (m : Random sh.Generator) (s : Tso)
      → IsValid s
      → (r : Bool) × (m' : Random sh.Generator) × (s' : Tso) × (internal_update (random sh) m s
          ≡ ok (r, m', s'))
        × Updates s (r, s')
  tso_random_progress m s v = internal_update_lem (random sh) m s v (random-Covers m s)
