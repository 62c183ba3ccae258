-- ===== src/Storage/Pso/Progress.antt =====
-- `internalUpdate` under PSO: when it ends, and what it has done.
use weak_memory_models_mock.Base.{
  ℕ, zero, suc, ◌+◌, ◌*◌, ◌≤◌, ◌<◌, ◌≡◌, refl, ap, ◌∙◌, Bool, true, false, none, some, ℤ, List, [],
  ◌∷◌, ◌++◌, arith, length, get_elem?, get_elem?-lt, All, All-append, All-get_elem?, ok, Shuffle,
  length-append, length-shuffle,
}
use weak_memory_models_mock.Storage.Pso.Buffers.{ThreadBuffer, AddressBuffer}
use weak_memory_models_mock.Storage.Pso.{Pso, UpdateManager, update_loop, internal_update}
use weak_memory_models_mock.Storage.Pso.Flush.{IsValid, propagated, propagate-nil, propagate-cons}
use weak_memory_models_mock.Storage.Pso.Updates.{Sequential, sequential, Random, random, row, table}
use weak_memory_models_mock.Storage.Pso.Table.{table-All, length-table}

-- The update manager offers the pairs of a list, and then none.
pub data Enumerates {M : Type 0} (u : UpdateManager M) : M → List (ℕ × ℕ) → Type 0 where
  done : {m m' : M} → u.get_thread_id_and_address m ≡ (none, m') → Enumerates u m []
  more :
      {m m' : M} {p : ℕ × ℕ} {ps : List (ℕ × ℕ)}
      → u.get_thread_id_and_address m ≡ (some p, m')
      → Enumerates u m' ps
      → Enumerates u m (p ∷ ps)

-- Thread `p.0` has nothing buffered for the address `p.1`.
abbrev pub IsEmpty : Pso → ℕ × ℕ → Type 0
IsEmpty s p =
    (tb : ThreadBuffer) → get_elem? s.thread_buffers p.0 ≡ some tb → get_elem? tb p.1 ≡ some []

-- The oldest store of one buffer has reached the storage.
abbrev pub Moved : Pso → Pso → Type 0
Moved s s' =
    (t : ℕ) × (a : ℕ) × (tb : ThreadBuffer) × (v : ℤ) × (b : AddressBuffer) × (get_elem?
        s.thread_buffers t
      ≡ some tb)
    × (get_elem? tb a ≡ some (v ∷ b))
    × (s' ≡ propagated s t a tb v b)

-- What an internal update does: nothing, since nothing is buffered, or one step.
abbrev pub Updates : Pso → Bool × Pso → Type 0
Updates s (false, s') =
    (s' ≡ s) × ((t a : ℕ) → t < length s.thread_buffers → a < length s.storage → IsEmpty s (t, a))
Updates s (true, s') = Moved s s'

abbrev pub UpdatesAmong : Pso → List (ℕ × ℕ) → Bool × Pso → Type 0
UpdatesAmong s ps (false, s') = (s' ≡ s) × All (IsEmpty s) ps
UpdatesAmong s ps (true, s') = Moved s s'

-- The pair names a buffer.
abbrev pub InRange : Pso → ℕ × ℕ → Type 0
InRange s p = (p.0 < length s.thread_buffers) × (p.1 < length s.storage)

widen :
    (s : Pso) (p : ℕ × ℕ) (ps : List (ℕ × ℕ)) (r : Bool × Pso)
    → IsEmpty s p
    → UpdatesAmong s ps r
    → UpdatesAmong s (p ∷ ps) r
widen s p ps (false, s') e (same, rest) = (same, (e, rest))
widen s p ps (true, s') e h = h

nothing_at :
    (s : Pso) (t a : ℕ) (tb : ThreadBuffer)
    → get_elem? s.thread_buffers t ≡ some tb
    → get_elem? tb a ≡ some []
    → IsEmpty s (t, a)
nothing_at s t a tb here e tb' here' = let q : tb ≡ tb' = cc in rw (← q) e

pub update_loop_lem :
    {M : Type 0} (u : UpdateManager M) (fuel : ℕ) (m : M) (ps : List (ℕ × ℕ)) (s : Pso)
    → Enumerates u m ps
    → length ps < fuel
    → IsValid s
    → All (InRange s) ps
    → (r : Bool) × (m' : M) × (s' : Pso) × (update_loop u fuel m s ≡ ok (r, m', s'))
      × UpdatesAmong s ps (r, s')
unfolding update_loop
update_loop_lem u zero m ps s en f v h = absurd (omega arith)
update_loop_lem u (suc fuel) m [] s (done {m' = m'} e) f v h =
    (false, m', s, rw (e, update_loop, e), (refl, tt))
update_loop_lem {M} u (suc fuel) m ((t, a) ∷ ps) s (more {m' = m'} e en) f v h =
    let (tb, here) = get_elem?-lt s.thread_buffers t h.0.0 in
    let wide : length tb ≡ length s.storage =
      All-get_elem? (λ x. length x ≡ length s.storage) s.thread_buffers t v here in
    let (b, q) = get_elem?-lt tb a (omega (arith, wide, h.0.1)) in
    step tb b here q (update_loop_lem u fuel m' ps s en (omega arith) v h.1)
  where
    step :
        (tb : ThreadBuffer) (b : AddressBuffer)
        → get_elem? s.thread_buffers t ≡ some tb
        → get_elem? tb a ≡ some b
        → (r : Bool) × (m'' : M) × (s' : Pso) × (update_loop u fuel m' s ≡ ok (r, m'', s'))
          × UpdatesAmong s ps (r, s')
        → (r : Bool) × (m'' : M) × (s' : Pso) × (update_loop u (suc fuel) m s ≡ ok (r, m'', s'))
          × UpdatesAmong s ((t, a) ∷ ps) (r, s')
    step tb [] here q (r, m'', s', z, w) = (
      r,
      m'',
      s',
      rw (e, update_loop, e, propagate-nil s t a tb here q, z),
      widen s (t, a) ps (r, s') (nothing_at s t a tb here q) w,
    )
    step tb (x ∷ b) here q (r, m'', s', z, w) = (
      true,
      m',
      propagated s t a tb x b,
      rw (e, update_loop, e, propagate-cons s t a tb here x b q h.0.1),
      (t, a, tb, x, b, here, q, refl),
    )

All-row :
    (P : ℕ × ℕ → Type 0) (t from n : ℕ)
    → ((a : ℕ) → from ≤ a → a < from + n → P (t, a))
    → All P (row t from n)
All-row P t from zero h = tt
All-row P t from (suc n) h = (
  h from (omega arith) (omega arith),
  All-row P t (suc from) n (λ a k l. h a (omega arith) (omega arith)),
)

All-table :
    (P : ℕ × ℕ → Type 0) (from k size : ℕ)
    → ((t a : ℕ) → from ≤ t → t < from + k → a < size → P (t, a))
    → All P (table from k size)
All-table P from zero size h = tt
All-table P from (suc k) size h =
    All-append P (row from 0 size) (table (suc from) k size)
      (All-row P from 0 size (λ a x y. h from a (omega arith) (omega arith) (omega arith)))
      (All-table P (suc from) k size (λ t a x y z. h t a (omega arith) (omega arith) z))

-- From `(t, a)` on: the rest of the row, then the rows of the `k` threads after `t`.
sequential-Enumerates :
    (k d t a threads size : ℕ)
    → threads ≡ suc t + k
    → size ≡ a + d
    → 0 < size
    → Enumerates sequential
        (record {
          next_thread_id = t;
          max_thread_id = threads;
          next_address = a;
          max_address = size;
        })
        (row t a d ++ table (suc t) k size)
unfolding sequential
sequential-Enumerates zero zero t a threads size e n h =
    done
      {m' = record {
        next_thread_id = suc t;
        max_thread_id = threads;
        next_address = 0;
        max_address = size;
      }}
      (ground arith)
sequential-Enumerates k (suc d) t a threads size e n h =
    more
      {m' = record {
        next_thread_id = t;
        max_thread_id = threads;
        next_address = suc a;
        max_address = size;
      }}
      (ground arith) (sequential-Enumerates k d t (suc a) threads size e (omega arith) h)
sequential-Enumerates (suc k) zero t a threads zero e n h = absurd (omega arith)
sequential-Enumerates (suc k) zero t a threads (suc size) e n h =
    more
      {m' = record {
        next_thread_id = suc t;
        max_thread_id = threads;
        next_address = 1;
        max_address = suc size;
      }}
      (ground arith)
      (sequential-Enumerates k size (suc t) 1 threads (suc size) (omega arith) (omega arith) h)

sequential-all :
    (threads size : ℕ)
    → 0 < size
    → Enumerates sequential
        (record {
          next_thread_id = 0;
          max_thread_id = threads;
          next_address = 0;
          max_address = size;
        })
        (table 0 threads size)
unfolding sequential
sequential-all zero size h =
    done
      {m' = record { next_thread_id = 0; max_thread_id = 0; next_address = 0; max_address = size }}
      (ground arith)
sequential-all (suc k) size h =
    sequential-Enumerates k size 0 0 (suc k) size (omega arith) (omega arith) h

-- From pairs among which all pairs of a table are.
pub every_buffer :
    (s : Pso) (ps : List (ℕ × ℕ)) (r : Bool × Pso)
    → (All (IsEmpty s) ps → All (IsEmpty s) (table 0 (length s.thread_buffers) (length s.storage)))
    → UpdatesAmong s ps r
    → Updates s r
every_buffer s ps (false, s') every (same, rest) = (
  same,
  λ t a x y.
      table-All (IsEmpty s) 0 (length s.thread_buffers) (length s.storage) t a (every rest)
        (omega arith) (omega arith) y,
)
every_buffer s ps (true, s') every h = h

pub table-InRange :
    (s : Pso) → All (InRange s) (table 0 (length s.thread_buffers) (length s.storage))
table-InRange s =
    All-table (InRange s) 0 (length s.thread_buffers) (length s.storage)
      (λ t a x y z. (omega arith, z))

-- With the sequential update manager and a storage that is not empty, an internal update of a valid
-- state ends within a round for each buffer and one more. If it reports that nothing was done then
-- no thread has anything buffered and the state is unchanged, else the oldest store of one buffer
-- has reached the storage.
pub pso_sequential_progress :
    (fuel : ℕ) (m : Sequential) (s : Pso)
    → IsValid s
    → 0 < length s.storage
    → length s.thread_buffers * length s.storage < fuel
    → (r : Bool) × (m' : Sequential) × (s' : Pso) × (internal_update sequential fuel m s
        ≡ ok (r, m', s'))
      × Updates s (r, s')
unfolding internal_update sequential
pso_sequential_progress fuel m s v h f =
    let threads = length s.thread_buffers in
    let size = length s.storage in
    let (r, m', s', e, w) =
      update_loop_lem sequential fuel (sequential.reset m s) (table 0 threads size) s
        (sequential-all threads size h) (omega (arith, length-table 0 threads size)) v
        (table-InRange s) in
    (r, m', s', e, every_buffer s (table 0 threads size) (r, s') (λ x. x) w)

-- `reset` of the random update manager keeps the pairs of all earlier resets: each reset adds as
-- many pairs as there are buffers.
pub random-reset_grows :
    (sh : Shuffle) (m : Random sh.Generator) (s : Pso)
    → length ((random sh).reset m s).pairs
      ≡ length m.pairs + length s.thread_buffers * length s.storage
unfolding random
random-reset_grows sh m s =
    let threads = length s.thread_buffers in
    let size = length s.storage in
    length-shuffle sh (ℕ × ℕ) m.random_generator (m.pairs ++ table 0 threads size)
    ∙ length-append m.pairs (table 0 threads size)
    ∙ ap (◌+◌ (length m.pairs)) (length-table 0 threads size)
