-- ===== src/Storage/Ra/Logs.antt =====
-- What the operations on a log leave of what a view reaches in it.
use weak_memory_models_mock.Base.{
  ◌≡◌, subst, not, ◌&&◌, true, [], ◌∷◌, ok, arith, inl, inr, Bool-cases, All,
}
use weak_memory_models_mock.Storage.Ra.Timestamps.{Timestamps}
use weak_memory_models_mock.Storage.Ra.Messages.{
  Message, History, push, from_timestamp, mark_used, drop_older,
}
use weak_memory_models_mock.Storage.Ra.Order.{
  Le, Le_refl, Le_of_lt, Le_trans, Reaches, Reaches-mono,
}

module _ (ts : Timestamps) where
  open ts use {T, lt}

  pub from_timestamp-nonempty :
      (t : T) (h : History ts)
      → Reaches ts t h
      → (m : Message ts) × (rest : History ts) × (from_timestamp ts t h ≡ m ∷ rest)
        × Le ts t m.timestamp
  unfolding from_timestamp
  from_timestamp-nonempty t [] r = absurd r
  from_timestamp-nonempty t (m ∷ h) r = elim (Bool-cases (lt m.timestamp t)) [
    | inr e ↦ (m, h, rw e, e)
    | inl e ↦ elim r [
      | inl k ↦ absurd (cc)
      | inr k ↦ let (m', rest, q, l) = from_timestamp-nonempty t h k in (m', rest, rw e q, l)
    ]
  ]

  -- The loop of the clean-up stops inside the history, and what it removes is older than a message
  -- that stays.
  pub drop_older-Reaches :
      (t : T) (h : History ts)
      → Reaches ts t h
      → (h' : History ts) × (drop_older ts t h ≡ ok h')
        × Reaches ts t h'
        × ((x : T) → Reaches ts x h → Reaches ts x h')
  unfolding drop_older
  drop_older-Reaches t [] r = absurd r
  drop_older-Reaches t (m ∷ h) r = elim (Bool-cases (lt m.timestamp t)) [
    | inr e ↦ (m ∷ h, rw e, r, λ x q. q)
    | inl e ↦ elim r [
      | inl k ↦ absurd (cc)
      | inr k ↦
          let (h', q, s, keep) = drop_older-Reaches t h k in
          (
            h',
            rw e q,
            s,
            λ x p. elim p [
              | inr p' ↦ keep x p'
              | inl p' ↦
                  Reaches-mono ts x t h'
                    (Le_trans ts x m.timestamp t p' (Le_of_lt ts m.timestamp t e)) s
            ],
          )
    ]
  ]

  pub drop_older-All :
      (P : Message ts → Type 0) (t : T) (h h' : History ts)
      → drop_older ts t h ≡ ok h'
      → All P h
      → All P h'
  unfolding drop_older
  drop_older-All P t [] h' e k = absurd (cc)
  drop_older-All P t (m ∷ h) h' e k = elim (Bool-cases (lt m.timestamp t)) [
    | inl f ↦ drop_older-All P t h h' (rw f at e) k.1
    | inr f ↦ let q : m ∷ h ≡ h' = ground (arith, f, e) in subst (All P) q k
  ]

  pub from_timestamp-All :
      (P : Message ts → Type 0) (t : T) (h : History ts) → All P h → All P (from_timestamp ts t h)
  unfolding from_timestamp
  from_timestamp-All P t [] k = tt
  from_timestamp-All P t (m ∷ h) k = elim (Bool-cases (lt m.timestamp t)) [
    | inl f ↦ rw f (from_timestamp-All P t h k.1)
    | inr f ↦ rw f k
  ]

  -- Setting a flag removes no message and changes no timestamp.
  pub mark_used-Reaches :
      (t x : T) (h : History ts) → Reaches ts x h → Reaches ts x (mark_used ts t h)
  unfolding mark_used
  mark_used-Reaches t x [] r = absurd r
  mark_used-Reaches t x (m ∷ h) r =
      elim (Bool-cases (not (lt t m.timestamp) && not (lt m.timestamp t))) [
        | inl e ↦ rw e r
        | inr e ↦ rw e (elim r [ inl k ↦ inl k | inr k ↦ inr (mark_used-Reaches t x h k) ])
      ]

  pub mark_used-All :
      (P : Message ts → Type 0) (t : T) (h : History ts)
      → ((m : Message ts) → P m → P (record m { is_used_by_atomic_update = true }))
      → All P h
      → All P (mark_used ts t h)
  unfolding mark_used
  mark_used-All P t [] f k = tt
  mark_used-All P t (m ∷ h) f k =
      elim (Bool-cases (not (lt t m.timestamp) && not (lt m.timestamp t))) [
        | inl e ↦ rw e (f m k.0, k.1)
        | inr e ↦ rw e (k.0, mark_used-All P t h f k.1)
      ]

  -- A new message removes none.
  pub push-Reaches :
      (m : Message ts) (x : T) (h : History ts) → Reaches ts x h → Reaches ts x (push ts m h)
  unfolding push
  push-Reaches m x [] r = absurd r
  push-Reaches m x (n ∷ h) r = elim (Bool-cases (lt m.timestamp n.timestamp)) [
    | inl e ↦ rw e (inr r)
    | inr e ↦ elim (Bool-cases (lt n.timestamp m.timestamp)) [
      | inl f ↦ rw (e, f) (elim r [ inl k ↦ inl k | inr k ↦ inr (push-Reaches m x h k) ])
      | inr f ↦ rw (e, f) r
    ]
  ]

  -- The history reaches the timestamp of the message, also where its key was taken.
  pub push-Reaches_self : (m : Message ts) (h : History ts) → Reaches ts m.timestamp (push ts m h)
  unfolding push
  push-Reaches_self m [] = inl (Le_refl ts m.timestamp)
  push-Reaches_self m (n ∷ h) = elim (Bool-cases (lt m.timestamp n.timestamp)) [
    | inl e ↦ rw e (inl (Le_refl ts m.timestamp))
    | inr e ↦ elim (Bool-cases (lt n.timestamp m.timestamp)) [
      | inl f ↦ rw (e, f) (inr (push-Reaches_self m h))
      | inr f ↦ rw (e, f) (inl f)
    ]
  ]

  pub push-All :
      (P : Message ts → Type 0) (m : Message ts) (h : History ts)
      → P m
      → All P h
      → All P (push ts m h)
  unfolding push
  push-All P m [] p k = (p, tt)
  push-All P m (n ∷ h) p k = elim (Bool-cases (lt m.timestamp n.timestamp)) [
    | inl e ↦ rw e (p, k)
    | inr e ↦ elim (Bool-cases (lt n.timestamp m.timestamp)) [
      | inl f ↦ rw (e, f) (k.0, push-All P m h p k.1)
      | inr f ↦ rw (e, f) k
    ]
  ]
