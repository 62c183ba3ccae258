-- ===== src/Storage/Ra/Invariant.antt =====
-- The invariant of the release-acquire manager, and `cleanUpHistory` under it.
use weak_memory_models_mock.Base.{
  ℕ, zero, suc, ◌<◌, ◌≡◌, refl, ◌∙◌, Option, none, some, List, [], ◌∷◌, ok, ◌>>=◌, inl, inr, length,
  get_elem?, get_elem?-lt, set, length-set, Bool-cases, All, All-map, All-set, All-get_elem?,
}
use weak_memory_models_mock.Storage.Ra.Timestamps.{Timestamps, View, min_of}
use weak_memory_models_mock.Storage.Ra.Messages.{Message, History}
use weak_memory_models_mock.Storage.Ra.Order.{
  Le, Le_refl, Le_trans, Le_of_lt, Reaches, Reaches-mono, Under, Under-set, Under-get_elem?,
  Under-length,
}
use weak_memory_models_mock.Storage.Ra.Logs.{drop_older-Reaches, drop_older-All}
use weak_memory_models_mock.Storage.Ra.{Ra, min_timestamp, clean_up_history}

module _ (ts : Timestamps) where
  open ts use {T, lt}

  abbrev pub OptionUnder : Option (View ts) → List (History ts) → Type 0
  OptionUnder none hs = Unit
  OptionUnder (some v) hs = Under ts v hs

  -- A message whose views are of messages that are there, at a location that exists.
  abbrev pub IsSound : List (History ts) → Message ts → Type 0
  IsSound hs m = Under ts m.base_view hs × OptionUnder m.release_view hs × (m.location < length hs)

  -- Every view of a thread, of a base and of a message is at most, at each location, as new as
  -- some message there.
  pub record IsValid (s : Ra ts) : Type 0 where
    pub bases : length s.base_views ≡ length s.thread_views
    pub size : length s.messages ≡ suc s.storage_size
    pub threads : All (λ v. Under ts v s.messages) s.thread_views
    pub base : All (λ v. Under ts v s.messages) s.base_views
    pub logs : All (All (IsSound s.messages)) s.messages

  -- New histories that are reached by what the old ones were.
  pub record Keeps (hs hs' : List (History ts)) : Type 0 where
    pub same : length hs' ≡ length hs
    pub under : (v : View ts) → Under ts v hs → Under ts v hs'

  pub Keeps-IsSound :
      (hs hs' : List (History ts)) (m : Message ts) → Keeps hs hs' → IsSound hs m → IsSound hs' m
  Keeps-IsSound hs hs' m k (b, r, l) =
      (k.under m.base_view b, release m.release_view r, rw k.same l)
    where
      release : (o : Option (View ts)) → OptionUnder o hs → OptionUnder o hs'
      release none u = tt
      release (some v) u = k.under v u

  pub set-Keeps :
      (hs : List (History ts)) (i : ℕ) {h : History ts} (h' : History ts)
      → get_elem? hs i ≡ some h
      → ((x : T) → Reaches ts x h → Reaches ts x h')
      → Keeps hs (set hs i h')
  set-Keeps hs i h' e k = record {
    same = length-set hs i h';
    under = λ v u. Under-set ts v hs i h' e (λ x q r. k x r) u;
  }

  -- A state with such histories, where the one that is new is sound.
  pub set-IsValid :
      (s : Ra ts) (i : ℕ) (h h' : History ts)
      → IsValid s
      → get_elem? s.messages i ≡ some h
      → ((x : T) → Reaches ts x h → Reaches ts x h')
      → All (IsSound (set s.messages i h')) h'
      → IsValid (record s { messages = set s.messages i h' })
  set-IsValid s i h h' v e k sound = record {
    bases = v.bases;
    size = keeps.same ∙ v.size;
    threads = All-map _ _ s.thread_views keeps.under v.threads;
    base = All-map _ _ s.base_views keeps.under v.base;
    logs = All-set (All (IsSound (set s.messages i h'))) s.messages i h' sound (
        All-map _ _ s.messages
          (λ l. All-map _ _ l (λ m. Keeps-IsSound s.messages (set s.messages i h') m keeps))
          v.logs);
  }
    where
      keeps : Keeps s.messages (set s.messages i h')
      keeps = set-Keeps s.messages i h' e k

  pub min_timestamp_lem :
      (least : T) (views : List (View ts)) (location : ℕ)
      → All (λ v. location < length v) views
      → (r : T) × (min_timestamp ts least views location ≡ ok r)
        × Le ts r least
        × ((i : ℕ) (v : View ts) (x : T)
            → get_elem? views i ≡ some v
            → get_elem? v location ≡ some x
            → Le ts r x)
  unfolding min_timestamp
  min_timestamp_lem least [] location h = (least, refl, Le_refl ts least, λ i v x e f. absurd (cc))
  min_timestamp_lem least (v ∷ views) location h =
      let (x, e) = get_elem?-lt v location h.0 in
      let (r, q, l, all) = min_timestamp_lem (min_of ts least x) views location h.1 in
      (
        r,
        rw (e, ◌>>=◌) q,
        Le_trans ts r (min_of ts least x) least l (left least x),
        bound x e r l all,
      )
    where
      left : (a b : T) → Le ts (min_of ts a b) a
      left a b = elim (Bool-cases (lt b a)) [
        | inl k ↦ rw k (Le_of_lt ts b a k)
        | inr k ↦ rw k (Le_refl ts a)
      ]

      right : (a b : T) → Le ts (min_of ts a b) b
      right a b = elim (Bool-cases (lt b a)) [ inl k ↦ rw k (Le_refl ts b) | inr k ↦ rw k k ]

      bound :
          (x : T)
          → get_elem? v location ≡ some x
          → (r : T) → Le ts r (min_of ts least x)
          → ((i : ℕ) (w : View ts) (y : T)
              → get_elem? views i ≡ some w
              → get_elem? w location ≡ some y
              → Le ts r y)
          → (i : ℕ) (w : View ts) (y : T) → get_elem? (v ∷ views) i ≡ some w
          → get_elem? w location ≡ some y
          → Le ts r y
      bound x e r l all zero w y p q =
          let d : x ≡ y = cc in rw (← d) (Le_trans ts r (min_of ts least x) x l (right least x))
      bound x e r l all (suc i) w y p q = all i w y p q

  -- A clean-up removes from one history, and every view stays reached.
  pub clean_up_history_lem :
      (s : Ra ts) (location : ℕ)
      → IsValid s
      → 0 < length s.thread_views
      → location < length s.messages
      → (s' : Ra ts) × (clean_up_history ts s location ≡ ok s')
        × IsValid s'
        × (s'.thread_views ≡ s.thread_views)
        × (s'.storage_size ≡ s.storage_size)
        × (length s'.messages ≡ length s.messages)
  unfolding clean_up_history
  clean_up_history_lem s location v some_thread here =
      let wide : All (λ w. location < length w) s.thread_views =
        All-map _ _ s.thread_views (λ w u. rw (Under-length ts w s.messages u) here) v.threads in
      let (min, e, _, least) = min_timestamp_lem ts.infinity s.thread_views location wide in
      let (h, f) = get_elem?-lt s.messages location here in
      let (w, g) = get_elem?-lt s.thread_views 0 some_thread in
      let under = All-get_elem? _ s.thread_views 0 v.threads g in
      let (x, p) = get_elem?-lt w location (All-get_elem? _ s.thread_views 0 wide g) in
      let reached =
        Reaches-mono ts min x h (least 0 w x g p)
          (Under-get_elem? ts w s.messages location under p f) in
      let (h', q, _, keep) = drop_older-Reaches ts min h reached in
      let keeps = set-Keeps s.messages location h' f keep in
      let sound =
        All-map _ _ h (λ m. Keeps-IsSound s.messages (set s.messages location h') m keeps)
          (All-get_elem? _ s.messages location v.logs f) in
      (
        record s { messages = set s.messages location h' },
        rw (e, f, q),
        set-IsValid s location h h' v f keep (drop_older-All ts _ min h h' q sound),
        refl,
        refl,
        length-set s.messages location h',
      )
