-- ===== src/Storage/Ra/Safety.antt =====
-- The parts of the operations of the release-acquire manager, in a valid state.
use weak_memory_models_mock.Base.{
  ℕ, ◌<◌, ◌≡◌, refl, sym, ap, ◌∙◌, subst, Bool, true, false, Option, none, some, List, ◌∷◌, ok,
  arith, length, get_elem?, get_elem?-lt, set, length-set, All, All-map, All-set, All-get_elem?,
  Ends,
}
use weak_memory_models_mock.Storage.Ra.Timestamps.{Timestamps, View, join}
use weak_memory_models_mock.Storage.Ra.Messages.{Message, History, from_timestamp, mark_used}
use weak_memory_models_mock.Storage.Ra.Order.{Under, Under-get_elem?, Under-length, join-Under}
use weak_memory_models_mock.Storage.Ra.Logs.{
  mark_used-Reaches, mark_used-All, from_timestamp-nonempty, from_timestamp-All,
}
use weak_memory_models_mock.Storage.Ra.Invariant.{
  IsValid, IsSound, OptionUnder, Keeps, Keeps-IsSound, set-Keeps, set-IsValid, clean_up_history_lem,
}
use weak_memory_models_mock.Storage.Ra.{
  Ra, UpdateManager, Choice, available_messages, mark, apply_message, acquired,
}

module _ (ts : Timestamps) where
  open ts use {T, lt, next}

  -- What every update manager guarantees: a message that it chooses is one of those that it is
  -- offered, up to the flag, and it reads nothing outside them.
  pub record Chooses {M : Type 0} (u : UpdateManager ts M) : Type 1 where
    pub message :
        (P : Message ts → Type 0) (k : M) (m : Message ts) (ms : List (Message ts)) (b : Bool)
        → ((x : Message ts) → P x → P (record x { is_used_by_atomic_update = true }))
        → All P (m ∷ ms)
        → Ends (λ (c : Choice ts × M). P c.0.message) (u.choose_message k (m ∷ ms) b)
    pub timestamp :
        (k : M) (m : Message ts) (ms : List (Message ts))
        → Ends (λ (c : T × M). Unit) (u.choose_new_timestamp k (m ∷ ms))

  -- A valid state of the same size.
  pub record Continues (s s' : Ra ts) : Type 0 where
    pub valid : IsValid ts s'
    pub threads : length s'.thread_views ≡ length s.thread_views
    pub locations : s'.storage_size ≡ s.storage_size

  -- The offered messages of a thread at a location: there is one, and all are sound and not older
  -- than the thread's view.
  pub record Offered (s : Ra ts) (t location : ℕ) : Type 0 where
    pub view : View ts
    pub min : T
    pub history : History ts
    pub first : Message ts
    pub others : List (Message ts)
    pub view_at : get_elem? s.thread_views t ≡ some view
    pub min_at : get_elem? view location ≡ some min
    pub history_at : get_elem? s.messages location ≡ some history
    pub available : available_messages ts s t location ≡ ok (first ∷ others)
    pub same : from_timestamp ts min history ≡ first ∷ others
    pub sound : All (IsSound ts s.messages) (first ∷ others)

  pub available_messages_lem :
      (s : Ra ts) (t location : ℕ)
      → IsValid ts s
      → t < length s.thread_views
      → location < length s.messages
      → Offered s t location
  unfolding available_messages
  available_messages_lem s t location v ht hl =
      let (w, e) = get_elem?-lt s.thread_views t ht in
      let under = All-get_elem? (λ v. Under ts v s.messages) s.thread_views t v.threads e in
      let (x, f) = get_elem?-lt w location (rw (Under-length ts w s.messages under) hl) in
      let (h, g) = get_elem?-lt s.messages location hl in
      let (m, ms, q, _) =
        from_timestamp-nonempty ts x h (Under-get_elem? ts w s.messages location under f g) in
      record {
        view = w;
        min = x;
        history = h;
        first = m;
        others = ms;
        view_at = e;
        min_at = f;
        history_at = g;
        available = rw (e, f, g, q);
        same = q;
        sound = subst (All (IsSound ts s.messages)) q (
            from_timestamp-All ts (IsSound ts s.messages) x h
              (All-get_elem? _ s.messages location v.logs g));
      }

  pub mark_lem :
      (s : Ra ts) (location : ℕ) (o : Option T)
      → IsValid ts s
      → location < length s.messages
      → (hs : List (History ts)) × (mark ts s location o ≡ ok (record s { messages = hs }))
        × IsValid ts (record s { messages = hs })
        × Keeps ts s.messages hs
  unfolding mark
  mark_lem s location none v h = (s.messages, refl, v, record { same = refl; under = λ v u. u })
  mark_lem s location (some t) v h =
      let (l, e) = get_elem?-lt s.messages location h in
      let keep = λ (x : T). mark_used-Reaches ts t x l in
      let keeps = set-Keeps ts s.messages location (mark_used ts t l) e keep in
      (
        set s.messages location (mark_used ts t l),
        rw e,
        set-IsValid ts s location l (mark_used ts t l) v e keep (
            mark_used-All ts _ t l (λ m p. p)
              (All-map _ _ l
                (λ m.
                  Keeps-IsSound ts s.messages (set s.messages location (mark_used ts t l)) m keeps)
                (All-get_elem? _ s.messages location v.logs e))),
        keeps,
      )

  acquired-Under :
      (hs : List (History ts)) (m : Message ts) (b : Bool)
      → IsSound ts hs m
      → Under ts (acquired ts m b) hs
  acquired-Under hs m false (u, _, _) = u
  acquired-Under hs m true (u, r, _) = pick m.release_view r
    where
      pick :
          (o : Option (View ts))
          → OptionUnder ts o hs
          → Under ts (elim o [ some v ↦ v | none ↦ m.base_view ]) hs
      pick none p = u
      pick (some v) p = p

  -- What taking over a message does with the views.
  pub record Applied (s : Ra ts) (t : ℕ) (m : Message ts) (b : Bool) : Type 0 where
    pub view : View ts
    pub result : Ra ts
    pub view_at : get_elem? s.thread_views t ≡ some view
    pub returns : apply_message ts s t m b ≡ ok result
    pub continues : Continues s result
    pub views : result.thread_views ≡ set s.thread_views t (join ts view (acquired ts m b))
    pub same : length view ≡ length (acquired ts m b)

  pub apply_message_lem :
      (s : Ra ts) (t : ℕ) (m : Message ts) (b : Bool)
      → IsValid ts s
      → t < length s.thread_views
      → IsSound ts s.messages m
      → Applied s t m b
  unfolding apply_message
  apply_message_lem s t m b v h sound =
      let (w, e) = get_elem?-lt s.thread_views t h in
      let w' = join ts w (acquired ts m b) in
      let views = set s.thread_views t w' in
      let n = length-set s.thread_views t w' in
      let up = All-get_elem? (λ v. Under ts v s.messages) s.thread_views t v.threads e in
      let taken = acquired-Under s.messages m b sound in
      let v' : IsValid ts (record s { thread_views = views }) = record {
        bases = rw n v.bases;
        size = v.size;
        threads =
            All-set (λ v. Under ts v s.messages) s.thread_views t w'
              (join-Under ts w (acquired ts m b) s.messages up taken) v.threads;
        base = v.base;
        logs = v.logs;
      } in
      let (s', q, valid, same, size, _) =
        clean_up_history_lem ts (record s { thread_views = views }) m.location v' (omega (arith, n))
          sound.2 in
      record {
        view = w;
        result = s';
        view_at = e;
        returns = rw (e, q);
        continues = record { valid = valid; threads = ap length same ∙ n; locations = size };
        views = same;
        same =
            Under-length ts w s.messages up
            ∙ sym (Under-length ts (acquired ts m b) s.messages taken);
      }
