-- ===== src/Storage/Ra.antt =====
-- `class ReleaseAcquireStorageManager` of src/Storage/ReleaseAcquireStorageManager.h and
-- src/Storage/src/ReleaseAcquireStorageManager.cpp: a log of messages for each location and a view
-- for each thread.
pub mod Timestamps
pub mod Messages
pub mod Order
pub mod Logs
pub mod Invariant
pub mod Safety
pub mod Reads
pub mod Writes
pub mod Fences
pub mod Calls
mod Random
pub mod Sorted
mod CleanUp
pub mod Start
pub mod Ticks
mod Tests
pub mod Updates
use weak_memory_models_mock.Base.{
  ℕ, zero, suc, ◌≡◌, Bool, true, false, Option, none, some, ℤ, pos, ◌==ℤ◌, ◌==◌, ltb, add32, List,
  [], ◌∷◌, map, Result, ok, err, Fault, ◌>>=◌, get_elem?, or_throw, set, length, replicate,
  if◌then◌else◌, indices,
}
use weak_memory_models_mock.Storage.AccessMode.{
  AccessMode, sequential_consistency, release, acquire, release_acquire, relaxed,
}
use weak_memory_models_mock.Storage.Logger.{Entry, Log}
use weak_memory_models_mock.Storage.Manager.{StorageManager}
use Timestamps.{View, join, min_of, middle_timestamp}
use Messages.{Message, History, initial, push, from_timestamp, mark_used, drop_older, back}

-- `enum class Model`
pub data Model : Type 0 where
  ra sra : Model

abbrev pub is_release : AccessMode → Bool
is_release release = true
is_release release_acquire = true
is_release _ = false

abbrev pub is_acquire : AccessMode → Bool
is_acquire acquire = true
is_acquire release_acquire = true
is_acquire _ = false

abbrev pub is_sc : AccessMode → Bool
is_sc sequential_consistency = true
is_sc _ = false

-- `v[i]`, read and written
abbrev pub index {ℓ} : {A : Type ℓ} → List A → ℕ → Result A
index xs i = or_throw (get_elem? xs i) Fault.bad_index

abbrev pub set_index {ℓ} : {A : Type ℓ} → List A → ℕ → A → Result (List A)
set_index xs i v = index xs i >>= λ _. ok (set xs i v)

module _ (ts : Timestamps.Timestamps) where
  open ts use {T, lt, next, infinity}

  -- `m_viewSize` is `m_storageSize + 1`; `m_internalUpdateManager` is an argument of the operations.
  pub record Ra : Type 0 where
    pub storage_size : ℕ
    pub thread_views : List (View ts)
    pub base_views : List (View ts)
    pub messages : List (History ts)
    pub model : Model
    pub log : Log

  abbrev pub view_size : Ra → ℕ
  view_size s = suc s.storage_size

  -- The loop of the constructor over the locations.
  unfoldable pub histories : ℕ → List ℕ → List (History ts)
  histories size [] = []
  histories size (loc ∷ rest) = (initial ts loc size ∷ []) ∷ histories size rest

  unfoldable pub create : ℕ → ℕ → Model → Ra
  unfolding histories
  create storage_size threads model = record {
    storage_size = storage_size;
    thread_views = replicate threads (Timestamps.create ts (suc storage_size));
    base_views = replicate threads (Timestamps.create ts (suc storage_size));
    messages = histories (suc storage_size) (indices 0 (suc storage_size));
    model = model;
    log = [];
  }

  -- What `chooseMessage` gives back: the message, and the key of the message whose flag it set.
  pub record Choice : Type 0 where
    pub message : Message ts
    pub marked : Option T

  -- `class InternalUpdateManager` over its state `M`
  pub record UpdateManager (M : Type 0) : Type 0 where
    pub choose_message : M → List (Message ts) → Bool → Result (Choice × M)
    pub choose_new_timestamp : M → List (Message ts) → Result (T × M)

  abbrev pub logged : Ra → Entry → Ra
  logged s e = record s { log = e ∷ s.log }

  unfoldable pub available_messages : Ra → ℕ → ℕ → Result (List (Message ts))
  available_messages s t location = do
    view ← index s.thread_views t
    min ← index view location
    history ← index s.messages location
    ok (from_timestamp ts min history)

  -- The loop of `minTimestamp`, from the value it has reached.
  unfoldable pub min_timestamp : T → List (View ts) → ℕ → Result T
  min_timestamp least [] location = ok least
  min_timestamp least (v ∷ views) location =
      index v location >>= λ t. min_timestamp (min_of ts least t) views location

  unfoldable pub clean_up_history : Ra → ℕ → Result Ra
  clean_up_history s location = do
    min ← min_timestamp infinity s.thread_views location
    history ← index s.messages location
    cleaned ← drop_older ts min history
    messages ← set_index s.messages location cleaned
    ok (record s { messages = messages })

  -- The view that a reader takes over.
  abbrev pub acquired : Message ts → Bool → View ts
  acquired m false = m.base_view
  acquired m true = elim m.release_view [ some v ↦ v | none ↦ m.base_view ]

  unfoldable pub apply_message : Ra → ℕ → Message ts → Bool → Result Ra
  apply_message s t m with_acquire = do
    view ← index s.thread_views t
    views ← set_index s.thread_views t (join ts view (acquired m with_acquire))
    clean_up_history (record s { thread_views = views }) m.location

  -- The flag that `chooseMessage` set through a reference into the log of the location.
  unfoldable pub mark : Ra → ℕ → Option T → Result Ra
  mark s location none = ok s
  mark s location (some t) = do
    history ← index s.messages location
    messages ← set_index s.messages location (mark_used ts t history)
    ok (record s { messages = messages })

  -- `minPossibleTimestamp`
  unfoldable pub min_possible : List (Message ts) → Result T
  min_possible [] = err Fault.bad_index
  min_possible (x ∷ []) = ok (next x.timestamp)
  min_possible (x ∷ y ∷ h) = middle_timestamp ts x.timestamp y.timestamp

  -- The views that a release write sets and attaches.
  unfoldable pub release_views :
      Ra → ℕ → ℕ → View ts → Bool → Result (List (View ts) × Option (View ts))
  release_views s t location view false = ok (s.base_views, none)
  release_views s t location view true =
      if location == s.storage_size
      then (set_index s.base_views t view >>= λ bases. ok (bases, some view))
      else ok (s.base_views, some view)

  -- What follows the choice of the new timestamp.
  unfoldable pub write_message : Ra → ℕ → ℕ → ℤ → Bool → T → Result Ra
  write_message s t location value with_release new_timestamp = do
    old_view ← index s.thread_views t
    view ← set_index old_view location new_timestamp
    views ← set_index s.thread_views t view
    bases ← release_views s t location view with_release
    base_view ← index bases.0 t
    history ← index s.messages location
    let m : Message ts = record {
      location = location;
      value = value;
      timestamp = new_timestamp;
      base_view = base_view;
      release_view = bases.1;
      is_used_by_atomic_update = false;
    }
    logs ← set_index s.messages location (push ts m history)
    ok (record s { thread_views = views; base_views = bases.0; messages = logs })

  -- The loop of `fence` that cleans the locations.
  unfoldable pub clean_all : List ℕ → Ra → Result Ra
  clean_all [] s = ok s
  clean_all (location ∷ rest) s = clean_up_history s location >>= λ s'. clean_all rest s'

  -- The branch of an SC fence. The view of the fencing thread is joined with itself in its turn,
  -- so it is the same in every round.
  unfoldable pub sc_fence : Ra → ℕ → Result Ra
  sc_fence s t = do
    view ← index s.thread_views t
    clean_all (indices 0 (view_size s))
        (record s { thread_views = map (λ v. join ts v view) s.thread_views })

  module _ {M : Type 0} (u : UpdateManager M) where
    unfoldable pub read : M → Ra → ℕ → ℕ → Bool → Bool → Result (ℤ × M × Ra)
    read k s t location with_acquire before_update = do
      messages ← available_messages s t location
      chosen ← u.choose_message k messages before_update
      let m = chosen.0.message
      s₁ ← mark s location chosen.0.marked
      s₂ ← apply_message s₁ t m with_acquire
      ok (m.value, chosen.1, s₂)

    -- `newTimestamp`
    unfoldable pub new_timestamp : M → Model → List (Message ts) → Bool → Result (T × M)
    new_timestamp k model messages use_min = do
      least ← min_possible messages
      elim model [
        | sra ↦ back ts messages >>= λ x. ok (next x.timestamp, k)
        | ra ↦ elim use_min [ true ↦ ok (least, k) | false ↦ u.choose_new_timestamp k messages ]
      ]

    unfoldable pub write : M → Ra → ℕ → ℕ → ℤ → Bool → Bool → Result (M × Ra)
    write k s t location value use_min with_release = do
      messages ← available_messages s t location
      new ← new_timestamp k s.model messages use_min
      s' ← write_message s t location value with_release new.0
      ok (new.1, s')

    unfoldable pub load : M → Ra → ℕ → ℕ → AccessMode → Result (ℤ × M × Ra)
    load k s t a o = do
      r ← read k s t a (is_acquire o) false
      ok (r.0, r.1, logged r.2 (Entry.load t a o r.0))

    unfoldable pub store : M → Ra → ℕ → ℕ → ℤ → AccessMode → Result (M × Ra)
    store k s t a v o = write k (logged s (Entry.store t a v o)) t a v false (is_release o)

    -- `if (value == expectedValue) { write(…); }`
    abbrev pub write_if : Bool → M → Ra → ℕ → ℕ → ℤ → Bool → Result (M × Ra)
    write_if true k s t location value with_release = write k s t location value true with_release
    write_if false k s t location value with_release = ok (k, s)

    unfoldable pub compare_and_swap : M → Ra → ℕ → ℕ → ℤ → ℤ → AccessMode → Result (M × Ra)
    compare_and_swap k s t a expected new o = do
      r ← read k s t a (is_acquire o) true
      w ← write_if (r.0 ==ℤ expected) r.1 r.2 t a new (is_release o)
      ok (w.0, logged w.1 (Entry.compare_and_swap t a expected (some r.0) new o))

    unfoldable pub fetch_and_increment : M → Ra → ℕ → ℕ → ℤ → AccessMode → Result (M × Ra)
    fetch_and_increment k s t a increment o = do
      r ← read k s t a (is_acquire o) true
      sum ← add32 r.0 increment
      w ← write r.1 r.2 t a sum true (is_release o)
      ok (w.0, logged w.1 (Entry.fetch_and_increment t a increment o false))

    -- `if (isAcquire(accessMode)) { read(…); }`
    abbrev pub read_if : Bool → M → Ra → ℕ → ℕ → Bool → Result (M × Ra)
    read_if true k s t location before_update =
        read k s t location true before_update >>= λ r. ok (r.1, r.2)
    read_if false k s t location before_update = ok (k, s)

    -- The branch of any other fence: it reads and writes the additional location.
    unfoldable pub ra_fence : M → Ra → ℕ → AccessMode → Result (M × Ra)
    ra_fence k s t o = do
      r ← read_if (is_acquire o) k s t s.storage_size (is_release o)
      write r.0 r.1 t s.storage_size (pos 0) true (is_release o)

    unfoldable pub fence : M → Ra → ℕ → AccessMode → Result (M × Ra)
    fence k s t o =
        let s' = logged s (Entry.fence t o) in
        if is_sc o then (sc_fence s' t >>= λ s''. ok (k, s'')) else ra_fence k s' t o

    abbrev pub manager : StorageManager (M × Ra)
    manager = record {
      load = λ s t a o. load s.0 s.1 t a o >>= λ r. ok (r.0, (r.1, r.2));
      store = λ s t a v o. store s.0 s.1 t a v o;
      compare_and_swap = λ s t a e v o. compare_and_swap s.0 s.1 t a e v o;
      fetch_and_increment = λ s t a i o. fetch_and_increment s.0 s.1 t a i o;
      fence = λ s t o. fence s.0 s.1 t o;
      internal_update = λ s. ok (false, s);
    }
