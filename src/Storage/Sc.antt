-- ===== src/Storage/Sc.antt =====
-- src/Storage/SequentialConsistencyStorageManager.h and
-- src/Storage/src/SequentialConsistencyStorageManager.cpp.
use weak_memory_models_mock.Base.{
  ℕ, ◌≡◌, refl, OnlyOverflows, add32-OnlyOverflows, get_elem?-lt, Bool, false, Option, some, inl,
  inr, err, length, length-set, get_elem?, arith, Option-cases, Result-cases, ℤ, ◌==ℤ◌, add32, ◌∷◌,
  [], Result, ok, ◌>>=◌, if◌then◌else◌,
}
use weak_memory_models_mock.Storage.AccessMode.{AccessMode}
use weak_memory_models_mock.Storage.Logger.{Entry, Log}
use weak_memory_models_mock.Storage.Memory.{Storage}
use weak_memory_models_mock.Storage.Memory
use weak_memory_models_mock.Storage.Manager.{StorageManager, Operation, perform, Addresses}

-- `class SequentialConsistencyStorageManager`
pub record Sc : Type 0 where
  pub storage : Storage
  pub log : Log

unfoldable pub create : ℕ → Sc
create storage_size = record { storage = Memory.create storage_size; log = [] }

abbrev pub logged : Sc → Entry → Sc
logged s e = record s { log = e ∷ s.log }

unfoldable pub load : Sc → ℕ → ℕ → AccessMode → Result (ℤ × Sc)
load s t a o = do result ← Memory.load s.storage a; ok (result, logged s (Entry.load t a o result))

unfoldable pub store : Sc → ℕ → ℕ → ℤ → AccessMode → Result Sc
store s t a v o = do
  let s' = logged s (Entry.store t a v o)
  storage ← Memory.store s'.storage a v
  ok (record s' { storage = storage })

unfoldable pub compare_and_swap : Sc → ℕ → ℕ → ℤ → ℤ → AccessMode → Result Sc
compare_and_swap s t a expected new o = do
  value ← Memory.load s.storage a
  let s' = logged s (Entry.compare_and_swap t a expected (some value) new o)
  (if value ==ℤ expected
      then (Memory.store s'.storage a new >>= λ storage. ok (record s' { storage = storage }))
      else ok s')

unfoldable pub fetch_and_increment : Sc → ℕ → ℕ → ℤ → AccessMode → Result Sc
fetch_and_increment s t a increment o = do
  let s' = logged s (Entry.fetch_and_increment t a increment o false)
  value ← Memory.load s'.storage a
  sum ← add32 value increment
  storage ← Memory.store s'.storage a sum
  ok (record s' { storage = storage })

unfoldable pub fence : Sc → ℕ → AccessMode → Result Sc
fence s t o = ok (logged s (Entry.fence t o))

-- The inherited `internalUpdate`, which does nothing.
unfoldable pub internal_update : Sc → Result (Bool × Sc)
internal_update s = ok (false, s)

abbrev pub manager : StorageManager Sc
manager = record {
  load = load;
  store = store;
  compare_and_swap = compare_and_swap;
  fetch_and_increment = fetch_and_increment;
  fence = fence;
  internal_update = internal_update;
}

-- What a call leaves of the size of the storage.
abbrev pub KeepsSize : Sc → Result (Option ℤ × Sc) → Type 0
KeepsSize m (ok r) = length r.1.storage ≡ length m.storage
KeepsSize m (err e) = Unit

pub perform-KeepsSize : (op : Operation) (m : Sc) → KeepsSize m (perform manager op m)
unfolding load store compare_and_swap fetch_and_increment fence
perform-KeepsSize (Operation.load t a o) m = ground arith
perform-KeepsSize (Operation.store t a v o) m = ground (arith, length-set m.storage a v)
perform-KeepsSize (Operation.compare_and_swap t a x v o) m =
    ground (arith, length-set m.storage a v)
perform-KeepsSize (Operation.fetch_and_increment t a i o) m =
    elim (Option-cases (get_elem? m.storage a)) [
      | inl e ↦ rw e tt
      | inr (c, e) ↦ elim (Result-cases (add32 c i)) [
        | inl (n, q) ↦ rw (e, q) (length-set m.storage a n)
        | inr (f, q) ↦ rw (e, q) tt
      ]
    ]
perform-KeepsSize (Operation.fence t o) m = refl

-- The only fault of a call to an address of the storage is an increment that overflows.
pub perform-OnlyOverflows :
    (op : Operation) (m : Sc)
    → Addresses (length m.storage) op
    → OnlyOverflows (perform manager op m)
unfolding load store compare_and_swap fetch_and_increment fence
perform-OnlyOverflows (Operation.load t a o) m h =
    let (c, e) = get_elem?-lt m.storage a h in rw e tt
perform-OnlyOverflows (Operation.store t a v o) m h =
    let (c, e) = get_elem?-lt m.storage a h in rw e tt
perform-OnlyOverflows (Operation.compare_and_swap t a x v o) m h =
    let (c, e) = get_elem?-lt m.storage a h in ground (arith, e)
perform-OnlyOverflows (Operation.fetch_and_increment t a i o) m h =
    let (c, e) = get_elem?-lt m.storage a h in
    let f = add32-OnlyOverflows c i in
    elim (Result-cases (add32 c i)) [
      | inl (n, q) ↦ rw (e, q) tt
      | inr (x, q) ↦ rw (e, q) (rw q at f)
    ]
perform-OnlyOverflows (Operation.fence t o) m h = tt
