-- ===== src/Storage/Tso/Visibility.antt =====
-- Who sees a store under TSO, and when.
use weak_memory_models_mock.Base.{
  ℕ, ◌<◌, ◌≡◌, ◌≢◌, sym, get_elem?-lt, true, none, some, ℤ, ◌∷◌, arith, length, set, get_elem?,
  get_elem?-set, get_elem?-set_self, get_elem?-set_ne, ok, Result, ◌>>=◌, ◌==◌, if◌then◌else◌,
}
use weak_memory_models_mock.Storage.AccessMode.{AccessMode}
use weak_memory_models_mock.Storage.Logger.{Entry}
use weak_memory_models_mock.Storage.Tso.Buffer.{
  Buffer, StoreInstruction, find, latest, find-eq-latest, latest-push,
}
use weak_memory_models_mock.Storage.Tso.Buffer
use weak_memory_models_mock.Storage.Tso.{Tso, load, store, propagate}
use weak_memory_models_mock.Storage.Tso.Flush.{propagated, propagate-cons}

-- The value that a load returns.
abbrev pub loads : Tso → ℕ → ℕ → AccessMode → Result ℤ
loads s t a o = load s t a o >>= λ r. ok r.0

-- A store is seen by its own thread at once, at its address only, and by no other thread.
pub store_visibility :
    (s : Tso) (t a : ℕ) (v : ℤ) (o o' : AccessMode)
    → t < length s.thread_buffers
    → (s' : Tso) × (store s t a v o ≡ ok s')
      × ((x : ℕ) → loads s' t x o' ≡ (if a == x then ok v else loads s t x o'))
      × ((u x : ℕ) → u ≢ t → loads s' u x o' ≡ loads s u x o')
unfolding store load
store_visibility s t a v o o' h =
    let (b, e) = get_elem?-lt s.thread_buffers t h in
    let i : StoreInstruction = record { address = a; value = v } in
    (
      record s {
        thread_buffers = set s.thread_buffers t (Buffer.push b i);
        log = Entry.store t a v o ∷ s.log;
      },
      rw e,
      λ x. ground (
        arith,
        e,
        get_elem?-set_self s.thread_buffers t (Buffer.push b i) e,
        find-eq-latest b x,
        find-eq-latest (Buffer.push b i) x,
        latest-push b i x,
      ),
      λ u x ne.
          ground (arith, get_elem?-set_ne s.thread_buffers t u (Buffer.push b i) (λ q. ne (sym q))),
    )

-- When a buffered store reaches the storage, all other threads see it at once, save those that have
-- a store of their own to that address still buffered; the thread that made it sees what it saw.
pub propagate_visibility :
    (s : Tso) (t : ℕ) (i : StoreInstruction) (b : Buffer) (o : AccessMode)
    → get_elem? s.thread_buffers t ≡ some (i ∷ b)
    → i.address < length s.storage
    → (s' : Tso) × (propagate s t ≡ ok (true, s'))
      × ((x : ℕ) → loads s' t x o ≡ loads s t x o)
      × ((u x : ℕ) (c : Buffer)
          → u ≢ t
          → get_elem? s.thread_buffers u ≡ some c
          → loads s' u x o ≡ elim (find c x) [
            | some w ↦ ok w
            | none ↦ if i.address == x then ok i.value else loads s u x o
          ])
unfolding load latest
propagate_visibility s t i b o e h = (
  propagated s t i b,
  propagate-cons s t i b e h,
  λ x. ground (
    arith,
    e,
    get_elem?-set_self s.thread_buffers t b e,
    find-eq-latest b x,
    find-eq-latest (i ∷ b) x,
    get_elem?-set s.storage i.address x i.value h,
  ),
  λ u x c ne k. ground (
    arith,
    k,
    get_elem?-set_ne s.thread_buffers t u b (λ q. ne (sym q)),
    get_elem?-set s.storage i.address x i.value h,
  ),
)
