-- ===== src/Storage/Ra/Reads.antt =====
-- `read` of the release-acquire manager: the value, and the views.
use weak_memory_models_mock.Base.{
  ℕ, ◌<◌, ◌≡◌, refl, Bool, true, some, ℤ, List, [], ◌∷◌, ok, ◌⊎◌, inl, inr, length, get_elem?,
  get_elem?-set_self, set, All, All-map, Ends, >>=-Ends, false, none, Option-cases,
}
use weak_memory_models_mock.Storage.Ra.Timestamps.{Timestamps, View, join}
use weak_memory_models_mock.Storage.Ra.Messages.{Message}
use weak_memory_models_mock.Storage.Ra.Order.{ViewLe, join-ViewLe, join-least}
use weak_memory_models_mock.Storage.Ra.Invariant.{IsValid, IsSound, Keeps-IsSound}
use weak_memory_models_mock.Storage.Ra.Safety.{
  Chooses, Continues, available_messages_lem, mark_lem, apply_message_lem,
}
use weak_memory_models_mock.Storage.Ra.{
  Ra, UpdateManager, Choice, available_messages, acquired, read,
}

module _ (ts : Timestamps) where
  -- The message is one of the list, up to the flag.
  abbrev pub Among : Message ts → List (Message ts) → Type 0
  Among m [] = ⊥
  Among m (x ∷ xs) =
      ((m.timestamp ≡ x.timestamp)
        × (m.value ≡ x.value)
        × (m.release_view ≡ x.release_view)
        × (m.base_view ≡ x.base_view))
      ⊎ Among m xs

  pub Among-each : (ms : List (Message ts)) → All (λ m. Among m ms) ms
  Among-each [] = tt
  Among-each (m ∷ ms) =
      (inl (refl, refl, refl, refl), All-map _ _ ms (λ x h. inr h) (Among-each ms))

  Among-marked :
      (x : Message ts) (ms : List (Message ts))
      → Among x ms
      → Among (record x { is_used_by_atomic_update = true }) ms
  Among-marked x (m ∷ ms) (inl h) = inl h
  Among-marked x (m ∷ ms) (inr h) = inr (Among-marked x ms h)
  Among-marked x [] h = absurd h

  All-both :
      (P Q : Message ts → Type 0) (ms : List (Message ts))
      → All P ms
      → All Q ms
      → All (λ m. P m × Q m) ms
  All-both P Q [] h k = tt
  All-both P Q (m ∷ ms) h k = ((h.0, k.0), All-both P Q ms h.1 k.1)

  -- The new view is the least one that is behind neither the old view nor another one.
  abbrev pub IsJoin : View ts → View ts → View ts → Type 0
  IsJoin view other new_view =
      ViewLe ts view new_view
      × ViewLe ts other new_view
      × ((bound : View ts)
          → ViewLe ts view bound
          → ViewLe ts other bound
          → ViewLe ts new_view bound)

  join-IsJoin :
      (view other : View ts) → length view ≡ length other → IsJoin view other (join ts view other)
  join-IsJoin view other same =
      let (grows, takes) = join-ViewLe ts view other same in
      (grows, takes, λ bound h k. join-least ts view other bound h k)

  -- Where the read acquires and the message has a release view the other view is that one, and in
  -- every other case it is the base view.
  pub record TakesOver (m : Message ts) (acquires : Bool) (view new_view : View ts) : Type 0 where
    pub release :
        (released : View ts)
        → acquires ≡ true
        → m.release_view ≡ some released
        → IsJoin view released new_view
    pub base : (acquires ≡ false) ⊎ (m.release_view ≡ none) → IsJoin view m.base_view new_view

  acquired-TakesOver :
      (m : Message ts) (b : Bool) (view : View ts)
      → length view ≡ length (acquired ts m b)
      → TakesOver m b view (join ts view (acquired ts m b))
  acquired-TakesOver m false view same = record {
    release = λ released e f. absurd (cc);
    base = λ _. join-IsJoin view m.base_view same;
  }
  acquired-TakesOver m true view same = elim (Option-cases m.release_view) [
    | inl e ↦
        let same' : length view ≡ length m.base_view = rw e at same in
        rw e (record {
          release = λ released _ f. absurd (cc);
          base = λ _. join-IsJoin view m.base_view same';
        })
    | inr (released, e) ↦
        let same' : length view ≡ length released = rw e at same in
        rw e (record {
          release = λ released' _ f.
              let q : released ≡ released' = cc in rw (← q) (join-IsJoin view released same');
          base = λ f. elim f [ inl g ↦ absurd (cc) | inr g ↦ absurd (cc) ];
        })
  ]

  -- What a read by thread `t` that returns `value` and leaves `s'` has done.
  pub record Reads (s : Ra ts) (t location : ℕ) (b : Bool) (value : ℤ) (s' : Ra ts) : Type 0 where
    pub message : Message ts
    pub messages : List (Message ts)
    pub view : View ts
    pub new_view : View ts
    pub offered : available_messages ts s t location ≡ ok messages
    pub is_offered : Among message messages
    pub value_of : value ≡ message.value
    pub view_at : get_elem? s.thread_views t ≡ some view
    pub new_view_at : get_elem? s'.thread_views t ≡ some new_view
    pub others : s'.thread_views ≡ set s.thread_views t new_view
    pub takes : TakesOver message b view new_view
    pub continues : Continues ts s s'

  module _ {M : Type 0} (u : UpdateManager ts M) (spec : Chooses ts u) where
    -- In a valid state a read by an existing thread, at an existing location, ends at an expected
    -- fault or returns the value of a message that the thread may see there, into a valid state. The
    -- view of the thread is then the least one that is nowhere behind what it was and nowhere behind
    -- the release view of the message, for an acquire read of a message that has one, or its base
    -- view, for every other read. No other view of a thread changes.
    pub read-Reads :
        (k : M) (s : Ra ts) (t location : ℕ) (b c : Bool)
        → IsValid ts s
        → t < length s.thread_views
        → location < length s.messages
        → Ends (λ (r : ℤ × M × Ra ts). Reads s t location b r.0 r.2) (read ts u k s t location b c)
    unfolding read
    read-Reads k s t location b c v ht hl =
        let o = available_messages_lem ts s t location v ht hl in
        rw o.available (
          >>=-Ends
            (λ (x : Choice ts × M).
              IsSound ts s.messages x.0.message × Among x.0.message (o.first ∷ o.others))
            _ (u.choose_message k (o.first ∷ o.others) c) _
            (spec.message (λ x. IsSound ts s.messages x × Among x (o.first ∷ o.others)) k o.first
              o.others c (λ x p. (p.0, Among-marked x (o.first ∷ o.others) p.1))
              (All-both _ _ (o.first ∷ o.others) o.sound (Among-each (o.first ∷ o.others))))
            (λ chosen h.
              let (hs, q, v', keeps) = mark_lem ts s location chosen.0.marked v hl in
              let a =
                apply_message_lem ts (record s { messages = hs }) t chosen.0.message b v' ht
                  (Keeps-IsSound ts s.messages hs chosen.0.message keeps h.0) in
              rw (q, a.returns)
                (record {
                  message = chosen.0.message;
                  messages = o.first ∷ o.others;
                  view = a.view;
                  new_view = join ts a.view (acquired ts chosen.0.message b);
                  offered = o.available;
                  is_offered = h.1;
                  value_of = refl;
                  view_at = a.view_at;
                  new_view_at = rw a.views (get_elem?-set_self s.thread_views t _ a.view_at);
                  others = a.views;
                  takes = acquired-TakesOver chosen.0.message b a.view a.same;
                  continues = record {
                    valid = a.continues.valid;
                    threads = a.continues.threads;
                    locations = a.continues.locations;
                  };
                })))
