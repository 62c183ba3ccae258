-- ===== src/Storage/Ra/CleanUp.antt =====
-- `cleanUpHistory`, and the messages that the threads see.
use weak_memory_models_mock.Base.{
  ℕ, ◌<◌, ◌≡◌, refl, ap, ◌≢◌, false, Option, none, some, List, [], ◌∷◌, ok, err, Result, Fault,
  ◌>>=◌, arith, inl, inr, length, get_elem?, get_elem?-lt, get_elem?-some, get_elem?-set_self,
  get_elem?-set_ne, set, set-get_elem?, ◌==◌, Bool-cases, Option-cases, All, All-map, All-get_elem?,
}
use weak_memory_models_mock.Storage.Ra.Timestamps.{Timestamps, View, join}
use weak_memory_models_mock.Storage.Ra.Messages.{Message, History, from_timestamp}
use weak_memory_models_mock.Storage.Ra.Order.{
  Le, Under-length, ViewLe, Reaches-mono, Under-get_elem?,
}
use weak_memory_models_mock.Storage.Ra.Logs.{drop_older-Reaches}
use weak_memory_models_mock.Storage.Ra.Invariant.{IsValid, IsSound, min_timestamp_lem}
use weak_memory_models_mock.Storage.Ra.Sorted.{from_timestamp-from_timestamp, drop_older_lem}
use weak_memory_models_mock.Storage.Ra.{
  Ra, available_messages, clean_up_history, apply_message, index,
}

module _ (ts : Timestamps) where
  open ts use {T, lt}

  -- The messages of a thread from the logs, of a thread with such a view.
  visible : Option (View ts) → List (History ts) → ℕ → Result (List (Message ts))
  visible none hs location = err Fault.bad_index
  visible (some view) hs location = index view location >>= λ min.
      index hs location >>= λ history. ok (from_timestamp ts min history)

  visible-set :
      (view : View ts) (hs : List (History ts)) (location other : ℕ) (min : T) (h : History ts)
      → get_elem? hs location ≡ some h
      → ((x : T) → get_elem? view location ≡ some x → Le ts min x)
      → visible (some view) (set hs location (from_timestamp ts min h)) other
        ≡ visible (some view) hs other
  unfolding visible
  visible-set view hs location other min h e least = elim (Option-cases (get_elem? view other)) [
    | inl f ↦ rw f
    | inr (x, f) ↦ elim (Bool-cases (location == other)) [
      | inr g ↦
          let n : location ≢ other = ground (arith, g) in
          rw (f, get_elem?-set_ne hs location other (from_timestamp ts min h) n)
      | inl g ↦
          let q : location ≡ other = ground (arith, g) in
          let f' : get_elem? view location ≡ some x = rw q f in
          let l = least x f' in
          rw (← q, f', e, get_elem?-set_self hs location (from_timestamp ts min h) e)
            (ap ok (from_timestamp-from_timestamp ts min x h l))
    ]
  ]

  -- In a valid state the clean-up of an existing location returns, and every thread sees at every
  -- location the same messages as before.
  pub clean_up_history-Unseen :
      (s : Ra ts) (location : ℕ)
      → IsValid ts s
      → 0 < length s.thread_views
      → location < length s.messages
      → (s' : Ra ts) × (clean_up_history ts s location ≡ ok s')
        × (s'.thread_views ≡ s.thread_views)
        × ((t other : ℕ) → available_messages ts s' t other ≡ available_messages ts s t other)
  unfolding clean_up_history available_messages visible
  clean_up_history-Unseen s location v some_thread here =
      let wide : All (λ w. location < length w) s.thread_views =
        All-map _ _ s.thread_views (λ w u. rw (Under-length ts w s.messages u) here) v.threads in
      let (min, e, _, least) = min_timestamp_lem ts ts.infinity s.thread_views location wide in
      let (h, f) = get_elem?-lt s.messages location here in
      let (w, g) = get_elem?-lt s.thread_views 0 some_thread in
      let under = All-get_elem? _ s.thread_views 0 v.threads g in
      let (x, p) = get_elem?-lt w location (All-get_elem? _ s.thread_views 0 wide g) in
      let reached =
        Reaches-mono ts min x h (least 0 w x g p)
          (Under-get_elem? ts w s.messages location under p f) in
      let (h', q, _, _) = drop_older-Reaches ts min h reached in
      let same : h' ≡ from_timestamp ts min h = drop_older_lem ts min h h' q in
      (
        record s { messages = set s.messages location h' },
        rw (e, f, q),
        refl,
        λ t other. elim (Option-cases (get_elem? s.thread_views t)) [
          | inl n ↦ rw n
          | inr (view, n) ↦
              rw (n, same)
                (visible-set view s.messages location other min h f (λ y r. least t view y n r))
        ],
      )

  join-absorb : (v w : View ts) → ViewLe ts w v → join ts v w ≡ v
  unfolding join
  join-absorb [] [] h = refl
  join-absorb (x ∷ v) (y ∷ w) h = rw h.0 (ap (◌∷◌ x) (join-absorb v w h.1))
  join-absorb [] (y ∷ w) h = absurd h
  join-absorb (x ∷ v) [] h = absurd h

  -- In a valid state a read that is no acquire read, of a message whose base view is nowhere ahead of
  -- the thread's view, returns and changes no view, whatever the timestamp of the message is: every
  -- thread sees at every location the same messages as before, those older than the message that was
  -- read included.
  pub apply_message-Unseen :
      (s : Ra ts) (t : ℕ) (m : Message ts) (view : View ts)
      → IsValid ts s
      → get_elem? s.thread_views t ≡ some view
      → IsSound ts s.messages m
      → ViewLe ts m.base_view view
      → (s' : Ra ts) × (apply_message ts s t m false ≡ ok s')
        × (s'.thread_views ≡ s.thread_views)
        × ((r other : ℕ) → available_messages ts s' r other ≡ available_messages ts s r other)
  unfolding apply_message
  apply_message-Unseen s t m view v e sound le =
      let n = get_elem?-some s.thread_views t e in
      let (s', q, same, seen) = clean_up_history-Unseen s m.location v (omega arith) sound.2 in
      (s', rw (e, join-absorb view m.base_view le, set-get_elem? s.thread_views t e, q), same, seen)
