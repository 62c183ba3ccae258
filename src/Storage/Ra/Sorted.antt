-- ===== src/Storage/Ra/Sorted.antt =====
-- The order of the messages in a log.
use weak_memory_models_mock.Base.{
  ◌≡◌, refl, ap, true, [], ◌∷◌, ◌++◌, ok, inl, inr, Bool-cases, All, All-map,
}
use weak_memory_models_mock.Storage.Ra.Timestamps.{Timestamps}
use weak_memory_models_mock.Storage.Ra.Messages.{
  Message, History, push, from_timestamp, drop_older, back,
}
use weak_memory_models_mock.Storage.Ra.Order.{Le, Le_trans, Le_of_lt, lt_of_lt_Le}

module _ (ts : Timestamps) where
  open ts use {T, lt, lt_trans}

  -- Every message is newer than those before it.
  abbrev pub IsSorted : History ts → Type 0
  IsSorted [] = Unit
  IsSorted (x ∷ h) = All (λ (m : Message ts). lt x.timestamp m.timestamp ≡ true) h × IsSorted h

  push-All_after :
      (x : T) (m : Message ts) (h : History ts)
      → lt x m.timestamp ≡ true
      → All (λ (n : Message ts). lt x n.timestamp ≡ true) h
      → All (λ (n : Message ts). lt x n.timestamp ≡ true) (push ts m h)
  unfolding push
  push-All_after x m [] e all = (e, tt)
  push-All_after x m (n ∷ h) e all = elim (Bool-cases (lt m.timestamp n.timestamp)) [
    | inl f ↦ rw f (e, all)
    | inr f ↦ elim (Bool-cases (lt n.timestamp m.timestamp)) [
      | inl g ↦ rw (f, g) (all.0, push-All_after x m h e all.1)
      | inr g ↦ rw (f, g) all
    ]
  ]

  -- A message that is put into a log that is in order leaves it in order.
  pub push-IsSorted : (m : Message ts) (h : History ts) → IsSorted h → IsSorted (push ts m h)
  unfolding push
  push-IsSorted m [] s = (tt, tt)
  push-IsSorted m (n ∷ h) s = elim (Bool-cases (lt m.timestamp n.timestamp)) [
    | inl f ↦
        rw f ((f, All-map _ _ h (λ x e. lt_trans m.timestamp n.timestamp x.timestamp f e) s.0), s)
    | inr f ↦ elim (Bool-cases (lt n.timestamp m.timestamp)) [
      | inl g ↦ rw (f, g) (push-All_after n.timestamp m h g s.0, push-IsSorted m h s.1)
      | inr g ↦ rw (f, g) s
    ]
  ]

  -- Of a log that is in order, the messages from a timestamp on are those that are not older, and
  -- what is left out in front of them is older.
  pub from_timestamp_lem :
      (t : T) (h : History ts)
      → IsSorted h
      → (older : History ts) × (h ≡ older ++ from_timestamp ts t h)
        × All (λ (m : Message ts). lt m.timestamp t ≡ true) older
        × All (λ (m : Message ts). Le ts t m.timestamp) (from_timestamp ts t h)
  unfolding from_timestamp
  from_timestamp_lem t [] s = ([], refl, tt, tt)
  from_timestamp_lem t (m ∷ h) s = elim (Bool-cases (lt m.timestamp t)) [
    | inl e ↦ older e (from_timestamp_lem t h s.1)
    | inr e ↦ rw e (
      [],
      refl,
      tt,
      (
        e,
        All-map _ _ h
            (λ x f. Le_trans ts t m.timestamp x.timestamp e (Le_of_lt ts m.timestamp x.timestamp f))
            s.0,
      ),
    )
  ]
    where
      older :
          lt m.timestamp t ≡ true
          → (older : History ts) × (h ≡ older ++ from_timestamp ts t h)
            × All (λ (m : Message ts). lt m.timestamp t ≡ true) older
            × All (λ (m : Message ts). Le ts t m.timestamp) (from_timestamp ts t h)
          → (older : History ts) × (m ∷ h ≡ older ++ from_timestamp ts t (m ∷ h))
            × All (λ (m : Message ts). lt m.timestamp t ≡ true) older
            × All (λ (m : Message ts). Le ts t m.timestamp) (from_timestamp ts t (m ∷ h))
      older e (o, q, a, b) = rw e (m ∷ o, ap (◌∷◌ m) q, (e, a), b)

  -- A message that is newer than the last one of a log in order goes to its end.
  pub push-append :
      (m last : Message ts) (h : History ts)
      → IsSorted h
      → back ts h ≡ ok last
      → lt last.timestamp m.timestamp ≡ true
      → push ts m h ≡ h ++ (m ∷ [])
  unfolding push back
  push-append m last [] s e k = absurd (cc)
  push-append m last (n ∷ []) s e k =
      let q : n ≡ last = cc in
      let k' : lt n.timestamp m.timestamp ≡ true = rw q k in
      let f = Le_of_lt ts n.timestamp m.timestamp k' in rw (f, k')
  push-append m last (n ∷ n' ∷ h) s e k =
      let k' = lt_trans n.timestamp last.timestamp m.timestamp (last_All n' h s.0 e) k in
      let f = Le_of_lt ts n.timestamp m.timestamp k' in
      let rest = push-append m last (n' ∷ h) s.1 e k in rw (f, k') (ap (◌∷◌ n) rest)
    where
      last_All :
          (n' : Message ts) (h : History ts)
          → All (λ (x : Message ts). lt n.timestamp x.timestamp ≡ true) (n' ∷ h)
          → back ts (n' ∷ h) ≡ ok last
          → lt n.timestamp last.timestamp ≡ true
      last_All n' [] all e = let q : n' ≡ last = cc in rw (← q) all.0
      last_All n' (n'' ∷ h) all e = last_All n'' h all.1 e

  -- Removing the messages before one timestamp does not change what there is from a later one on.
  pub from_timestamp-from_timestamp :
      (a b : T) (h : History ts)
      → Le ts a b
      → from_timestamp ts b (from_timestamp ts a h) ≡ from_timestamp ts b h
  unfolding from_timestamp
  from_timestamp-from_timestamp a b [] k = refl
  from_timestamp-from_timestamp a b (m ∷ h) k = elim (Bool-cases (lt m.timestamp a)) [
    | inl e ↦
        let f = lt_of_lt_Le ts m.timestamp a b e k in
        rw (e, f) (from_timestamp-from_timestamp a b h k)
    | inr e ↦ rw e
  ]

  -- Where a message is not older, the loop of the clean-up ends in it, at the same place.
  pub drop_older_lem :
      (t : T) (h h' : History ts) → drop_older ts t h ≡ ok h' → h' ≡ from_timestamp ts t h
  unfolding drop_older from_timestamp
  drop_older_lem t [] h' e = absurd (cc)
  drop_older_lem t (m ∷ h) h' e = elim (Bool-cases (lt m.timestamp t)) [
    | inl f ↦ rw f (drop_older_lem t h h' (rw f at e))
    | inr f ↦ let e' = rw f at e in rw f (cc e')
  ]
