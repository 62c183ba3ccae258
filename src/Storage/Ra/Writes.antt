-- ===== src/Storage/Ra/Writes.antt =====
-- The new message of a write, and the views that go with it.
use weak_memory_models_mock.Base.{
  none, ap, subst, ◌⊎◌, get_elem?, ◌||◌, if◌then◌else◌, ℕ, ◌<◌, ◌≡◌, refl, sym, ◌∙◌, Bool, true,
  false, Option, some, ℤ, List, [], ◌∷◌, ok, arith, inl, inr, length, get_elem?-lt,
  get_elem?-set_self, set, length-set, Bool-cases, All, All-map, All-set, All-get_elem?, ◌==◌,
}
use weak_memory_models_mock.Storage.Ra.Timestamps.{Timestamps, View}
use weak_memory_models_mock.Storage.Ra.Messages.{Message, History, push}
use weak_memory_models_mock.Storage.Ra.Order.{Under, Under-set_view}
use weak_memory_models_mock.Storage.Ra.Logs.{push-Reaches, push-Reaches_self, push-All}
use weak_memory_models_mock.Storage.Ra.Invariant.{
  IsValid, IsSound, OptionUnder, Keeps-IsSound, set-Keeps,
}
use weak_memory_models_mock.Storage.Ra.Safety.{Continues, available_messages_lem}
use weak_memory_models_mock.Storage.Ra.Reads.{Among, Among-each}
use weak_memory_models_mock.Storage.Ra.{Ra, release_views, write_message}

module _ (ts : Timestamps) where
  open ts use {T, lt, next}

  -- What a write does with the base views, whatever the histories are.
  record Released (s : Ra ts) (t location : ℕ) (view : View ts) (b : Bool) : Type 0 where
    bases : List (View ts)
    attached : Option (View ts)
    result : release_views ts s t location view b ≡ ok (bases, attached)
    same : length bases ≡ length s.base_views
    attached_view : attached ≡ (if b then some view else none)
    under :
        (hs : List (History ts))
        → Under ts view hs
        → All (λ v. Under ts v hs) s.base_views
        → All (λ v. Under ts v hs) bases
    attached_under : (hs : List (History ts)) → Under ts view hs → OptionUnder ts attached hs

  release_views_lem :
      (s : Ra ts) (t location : ℕ) (view : View ts) (b : Bool)
      → t < length s.base_views
      → Released s t location view b
  unfolding release_views
  release_views_lem s t location view false h = record {
    bases = s.base_views;
    attached = none;
    result = refl;
    same = refl;
    attached_view = refl;
    under = λ hs up all. all;
    attached_under = λ hs up. tt;
  }
  release_views_lem s t location view true h = elim (Bool-cases (location == s.storage_size)) [
    | inl e ↦
        let (w, f) = get_elem?-lt s.base_views t h in
        record {
          bases = set s.base_views t view;
          attached = some view;
          result = rw (e, f);
          same = length-set s.base_views t view;
          attached_view = refl;
          under = λ hs up all. All-set (λ v. Under ts v hs) s.base_views t view up all;
          attached_under = λ hs up. up;
        }
    | inr e ↦ record {
      bases = s.base_views;
      attached = some view;
      result = rw e;
      same = refl;
      attached_view = refl;
      under = λ hs up all. all;
      attached_under = λ hs up. up;
    }
  ]

  -- What a write of `value` with timestamp `x` does.
  pub record Written (s : Ra ts) (t location : ℕ) (value : ℤ) (b : Bool) (x : T) : Type 0 where
    pub result : Ra ts
    pub returns : write_message ts s t location value b x ≡ ok result
    pub continues : Continues ts s result
    pub view : View ts
    pub view_at : get_elem? s.thread_views t ≡ some view
    pub own : get_elem? (set view location x) location ≡ some x
    pub others : result.thread_views ≡ set s.thread_views t (set view location x)
    pub new_view_at : get_elem? result.thread_views t ≡ some (set view location x)
    pub history : History ts
    pub history_at : get_elem? s.messages location ≡ some history
    pub message : Message ts
    pub log : get_elem? result.messages location ≡ some (push ts message history)
    pub logs : result.messages ≡ set s.messages location (push ts message history)
    pub published :
        (message.timestamp ≡ x)
        × (message.value ≡ value)
        × (message.release_view ≡ (if b then some (set view location x) else none))

  pub write_message_lem :
      (s : Ra ts) (t location : ℕ) (value : ℤ) (b : Bool) (x : T)
      → IsValid ts s
      → t < length s.thread_views
      → location < length s.messages
      → Written s t location value b x
  unfolding write_message
  write_message_lem s t location value b x v ht hl =
      let o = available_messages_lem ts s t location v ht hl in
      let view = set o.view location x in
      let views = set s.thread_views t view in
      let r = release_views_lem s t location view b (omega (arith, v.bases, ht)) in
      let (base, e) = get_elem?-lt r.bases t (omega (arith, r.same, v.bases, ht)) in
      let m : Message ts = record {
        location = location;
        value = value;
        timestamp = x;
        base_view = base;
        release_view = r.attached;
        is_used_by_atomic_update = false;
      } in
      let h' = push ts m o.history in
      let hs = set s.messages location h' in
      let keeps =
        set-Keeps ts s.messages location h' o.history_at (λ y. push-Reaches ts m y o.history) in
      let old : Under ts o.view hs =
        keeps.under o.view
          (All-get_elem? (λ v. Under ts v s.messages) s.thread_views t v.threads o.view_at) in
      let up : Under ts view hs =
        Under-set_view ts o.view hs location x
          (get_elem?-set_self s.messages location h' o.history_at)
          (push-Reaches_self ts m o.history) old in
      let under = r.under hs up (All-map _ _ s.base_views keeps.under v.base) in
      let sound : IsSound ts hs m = (
        All-get_elem? (λ v. Under ts v hs) r.bases t under e,
        r.attached_under hs up,
        rw keeps.same hl,
      ) in
      let logs =
        All-map _ _ s.messages (λ l. All-map _ _ l (λ n. Keeps-IsSound ts s.messages hs n keeps))
          v.logs in
      record {
        result = record s { thread_views = views; base_views = r.bases; messages = hs };
        returns = rw (o.view_at, o.min_at, r.result, e, o.history_at);
        continues = record {
          valid = record {
            bases = r.same ∙ v.bases ∙ sym (length-set s.thread_views t view);
            size = keeps.same ∙ v.size;
            threads =
                All-set (λ v. Under ts v hs) s.thread_views t view up
                  (All-map _ _ s.thread_views keeps.under v.threads);
            base = under;
            logs =
                All-set (All (IsSound ts hs)) s.messages location h'
                  (push-All ts (IsSound ts hs) m o.history sound
                    (All-get_elem? _ s.messages location logs o.history_at))
                  logs;
          };
          threads = length-set s.thread_views t view;
          locations = refl;
        };
        view = o.view;
        view_at = o.view_at;
        own = get_elem?-set_self o.view location x o.min_at;
        others = refl;
        new_view_at = get_elem?-set_self s.thread_views t view o.view_at;
        history = o.history;
        history_at = o.history_at;
        message = m;
        log = get_elem?-set_self s.messages location h' o.history_at;
        logs = refl;
        published = (refl, refl, r.attached_view);
      }

  -- A list without a message that has the timestamp.
  abbrev pub IsFresh : T → History ts → Type 0
  IsFresh x h = All (λ m. (lt x m.timestamp || lt m.timestamp x) ≡ true) h

  -- The message is in the new log with all the old ones, or it is dropped, the log is as it was, and
  -- a message there has its timestamp.
  abbrev pub Logs : Message ts → History ts → History ts → Type 0
  Logs m old log =
      (Among ts m log × All (λ n. Among ts n log) old) ⊎ ((log ≡ old) × ¬ IsFresh m.timestamp old)

  Logs-eq :
      (m : Message ts) (old log log' : History ts) → log ≡ log' → Logs m old log' → Logs m old log
  Logs-eq m old log log' e h = subst (λ x. Logs m old x) (sym e) h

  push-Logs : (m : Message ts) (h : History ts) → Logs m h (push ts m h)
  push-Logs m [] = unfold push in inl (inl (refl, refl, refl, refl), tt)
  push-Logs m (n ∷ h) = elim (Bool-cases (lt m.timestamp n.timestamp)) [
    | inl e ↦ Logs-eq m (n ∷ h) (push ts m (n ∷ h)) (m ∷ n ∷ h) (unfold push in rw e refl) (
        inl (
          inl (refl, refl, refl, refl),
          All-map (λ x. Among ts x (n ∷ h)) (λ x. Among ts x (m ∷ n ∷ h)) (n ∷ h) (λ x k. inr k)
              (Among-each ts (n ∷ h)),
        ))
    | inr e ↦ elim (Bool-cases (lt n.timestamp m.timestamp)) [
      | inl g ↦
          Logs-eq m (n ∷ h) (push ts m (n ∷ h)) (n ∷ push ts m h) (unfold push in rw (e, g) refl)
            (elim (push-Logs m h) [
              | inl k ↦ inl (
                inr k.0,
                (
                  inl (refl, refl, refl, refl),
                  All-map (λ x. Among ts x (push ts m h)) (λ x. Among ts x (n ∷ push ts m h)) h
                      (λ x a. inr a) k.1,
                ),
              )
              | inr k ↦ inr (ap (◌∷◌ n) k.0, λ f. k.1 f.1)
            ])
      | inr g ↦
          Logs-eq m (n ∷ h) (push ts m (n ∷ h)) (n ∷ h) (unfold push in rw (e, g) refl)
            (inr (refl, λ f. let d = rw (e, g) at f.0 in absurd (cc)))
    ]
  ]

  -- In a valid state the part of a write that follows the choice of the timestamp returns, into a
  -- valid state. The thread's view is then at the new timestamp at the location and unchanged
  -- elsewhere, and no other view of a thread changes. The message has the value and the timestamp,
  -- and carries the thread's new view if the write is a release write, and no release view otherwise.
  -- It is in the log of the location, beside all that were there, unless one of these has its
  -- timestamp: then it is dropped, and the log is as it was. The logs of the other locations do not
  -- change.
  pub write_message-Publishes :
      (s : Ra ts) (t location : ℕ) (value : ℤ) (b : Bool) (x : T)
      → IsValid ts s
      → t < length s.thread_views
      → location < length s.messages
      → (s' : Ra ts) × (view new_view : View ts) × (m : Message ts) × (old log : History ts)
        × (write_message ts s t location value b x ≡ ok s')
        × IsValid ts s'
        × (get_elem? s.thread_views t ≡ some view)
        × (new_view ≡ set view location x)
        × (get_elem? new_view location ≡ some x)
        × (s'.thread_views ≡ set s.thread_views t new_view)
        × (get_elem? s.messages location ≡ some old)
        × (s'.messages ≡ set s.messages location log)
        × Logs m old log
        × (m.timestamp ≡ x)
        × (m.value ≡ value)
        × (m.release_view ≡ (if b then some new_view else none))
  write_message-Publishes s t location value b x v ht hl =
      let r = write_message_lem s t location value b x v ht hl in
      (
        r.result,
        r.view,
        set r.view location x,
        r.message,
        r.history,
        push ts r.message r.history,
        r.returns,
        r.continues.valid,
        r.view_at,
        refl,
        r.own,
        r.others,
        r.history_at,
        r.logs,
        push-Logs r.message r.history,
        r.published.0,
        r.published.1,
        r.published.2,
      )
