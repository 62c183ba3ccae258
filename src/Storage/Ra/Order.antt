-- ===== src/Storage/Ra/Order.antt =====
-- The order of timestamps, of views, and what a history holds.
use weak_memory_models_mock.Base.{
  ℕ, zero, suc, ◌≡◌, refl, ap, true, false, some, List, [], ◌∷◌, arith, ◌⊎◌, inl, inr, length,
  get_elem?, set, Bool-cases,
}
use weak_memory_models_mock.Storage.Ra.Timestamps.{Timestamps, View, join}
use weak_memory_models_mock.Storage.Ra.Messages.{History}

module _ (ts : Timestamps) where
  open ts use {T, lt, lt_irrefl, lt_trans, lt_connex}

  -- `a <= b`
  abbrev pub Le : T → T → Type 0
  Le a b = lt b a ≡ false

  pub Le_refl : (a : T) → Le a a
  Le_refl a = lt_irrefl a

  pub Le_of_lt : (a b : T) → lt a b ≡ true → Le a b
  Le_of_lt a b h = elim (Bool-cases (lt b a)) [
    | inl e ↦ let c = lt_trans a b a h e in absurd (cc (lt_irrefl a))
    | inr e ↦ e
  ]

  pub Le_trans : (a b c : T) → Le a b → Le b c → Le a c
  Le_trans a b c h k = elim (Bool-cases (lt c a)) [
    | inr e ↦ e
    | inl e ↦ elim (Bool-cases (lt a b)) [
      | inl f ↦ let g = lt_trans c a b e f in absurd (cc)
      | inr f ↦ let g = lt_connex a b f h in absurd (cc)
    ]
  ]

  pub lt_of_lt_Le : (a b c : T) → lt a b ≡ true → Le b c → lt a c ≡ true
  lt_of_lt_Le a b c h k = elim (Bool-cases (lt a c)) [
    | inl e ↦ e
    | inr e ↦ let g = Le_trans b c a k e in absurd (cc)
  ]

  pub lt_of_Le_lt : (a b c : T) → Le a b → lt b c ≡ true → lt a c ≡ true
  lt_of_Le_lt a b c h k = elim (Bool-cases (lt a c)) [
    | inl e ↦ e
    | inr e ↦ let g = Le_trans c a b e h in absurd (cc)
  ]

  -- Some message of the history is not older than `t`.
  abbrev pub Reaches : T → History ts → Type 0
  Reaches t [] = ⊥
  Reaches t (m ∷ h) = Le t m.timestamp ⊎ Reaches t h

  pub Reaches-mono : (a b : T) (h : History ts) → Le a b → Reaches b h → Reaches a h
  Reaches-mono a b (m ∷ h) k (inl e) = inl (Le_trans a b m.timestamp k e)
  Reaches-mono a b (m ∷ h) k (inr r) = inr (Reaches-mono a b h k r)
  Reaches-mono a b [] k r = absurd r

  -- One view is nowhere ahead of another.
  abbrev pub ViewLe : View ts → View ts → Type 0
  ViewLe [] [] = Unit
  ViewLe (x ∷ v) (y ∷ w) = Le x y × ViewLe v w
  ViewLe _ _ = ⊥

  pub ViewLe-refl : (v : View ts) → ViewLe v v
  ViewLe-refl [] = tt
  ViewLe-refl (x ∷ v) = (Le_refl x, ViewLe-refl v)

  pub ViewLe-trans : (u v w : View ts) → ViewLe u v → ViewLe v w → ViewLe u w
  ViewLe-trans [] [] [] h k = tt
  ViewLe-trans (x ∷ u) (y ∷ v) (z ∷ w) h k = (Le_trans x y z h.0 k.0, ViewLe-trans u v w h.1 k.1)
  ViewLe-trans [] [] (z ∷ w) h k = absurd k
  ViewLe-trans [] (y ∷ v) w h k = absurd h
  ViewLe-trans (x ∷ u) [] w h k = absurd h
  ViewLe-trans (x ∷ u) (y ∷ v) [] h k = absurd k

  pub join-least :
      (v w bound : View ts) → ViewLe v bound → ViewLe w bound → ViewLe (join ts v w) bound
  unfolding join
  join-least [] w [] h k = tt
  join-least [] w (z ∷ bound) h k = absurd h
  join-least (x ∷ v) w [] h k = absurd h
  join-least (x ∷ v) [] (z ∷ bound) h k = absurd k
  join-least (x ∷ v) (y ∷ w) (z ∷ bound) h k = elim (Bool-cases (lt x y)) [
    | inl e ↦ rw e (k.0, join-least v w bound h.1 k.1)
    | inr e ↦ rw e (h.0, join-least v w bound h.1 k.1)
  ]

  -- Of two views of one size, the join is at least each, and at most any that both are below.
  pub join-ViewLe :
      (v w : View ts) → length v ≡ length w → ViewLe v (join ts v w) × ViewLe w (join ts v w)
  unfolding join
  join-ViewLe [] [] n = (tt, tt)
  join-ViewLe [] (y ∷ w) n = absurd (omega arith)
  join-ViewLe (x ∷ v) [] n = absurd (omega arith)
  join-ViewLe (x ∷ v) (y ∷ w) n =
      let (l, r) = join-ViewLe v w (omega arith) in
      elim (Bool-cases (lt x y)) [
        | inl e ↦ rw e ((Le_of_lt x y e, l), (Le_refl y, r))
        | inr e ↦ rw e ((Le_refl x, l), (e, r))
      ]

  pub length-join : (v w : View ts) → length (join ts v w) ≡ length v
  unfolding join
  length-join [] w = refl
  length-join (x ∷ v) [] = refl
  length-join (x ∷ v) (y ∷ w) = ap suc (length-join v w)

  -- At each location some message is not older than the view.
  abbrev pub Under : View ts → List (History ts) → Type 0
  Under [] [] = Unit
  Under (x ∷ v) (h ∷ hs) = Reaches x h × Under v hs
  Under _ _ = ⊥

  pub join-Under :
      (v w : View ts) (hs : List (History ts)) → Under v hs → Under w hs → Under (join ts v w) hs
  unfolding join
  join-Under [] [] [] h k = tt
  join-Under (x ∷ v) (y ∷ w) (l ∷ hs) h k = elim (Bool-cases (lt x y)) [
    | inl e ↦ rw e (k.0, join-Under v w hs h.1 k.1)
    | inr e ↦ rw e (h.0, join-Under v w hs h.1 k.1)
  ]
  join-Under [] w (l ∷ hs) h k = absurd h
  join-Under (x ∷ v) w [] h k = absurd h
  join-Under [] (y ∷ w) [] h k = absurd k
  join-Under (x ∷ v) [] (l ∷ hs) h k = absurd k

  pub Under-get_elem? :
      (v : View ts) (hs : List (History ts)) (i : ℕ) {x : T} {h : History ts}
      → Under v hs
      → get_elem? v i ≡ some x
      → get_elem? hs i ≡ some h
      → Reaches x h
  Under-get_elem? (y ∷ v) (l ∷ hs) zero {x} {h} u e f =
      let p : y ≡ x = cc in let q : l ≡ h = cc in rw (← p, ← q) u.0
  Under-get_elem? (y ∷ v) (l ∷ hs) (suc i) u e f = Under-get_elem? v hs i u.1 e f
  Under-get_elem? [] hs i u e f = absurd (cc)
  Under-get_elem? (y ∷ v) [] i u e f = absurd u

  pub Under-length : (v : View ts) (hs : List (History ts)) → Under v hs → length v ≡ length hs
  Under-length [] [] u = refl
  Under-length (x ∷ v) (h ∷ hs) u = ap suc (Under-length v hs u.1)
  Under-length [] (h ∷ hs) u = absurd u
  Under-length (x ∷ v) [] u = absurd u

  -- A new history at one location that reaches what the old one reached.
  pub Under-set :
      (v : View ts) (hs : List (History ts)) (i : ℕ) {h : History ts} (h' : History ts)
      → get_elem? hs i ≡ some h
      → ((x : T) → get_elem? v i ≡ some x → Reaches x h → Reaches x h')
      → Under v hs
      → Under v (set hs i h')
  Under-set (x ∷ v) (l ∷ hs) zero {h} h' e k u =
      let q : l ≡ h = cc in (k x refl (rw (← q) u.0), u.1)
  Under-set (x ∷ v) (l ∷ hs) (suc i) h' e k u = (u.0, Under-set v hs i h' e k u.1)
  Under-set [] [] i h' e k u = absurd (cc)
  Under-set [] (l ∷ hs) i h' e k u = absurd u
  Under-set (x ∷ v) [] i h' e k u = absurd u

  -- A new timestamp at one location that the history there reaches.
  pub Under-set_view :
      (v : View ts) (hs : List (History ts)) (i : ℕ) (x : T) {h : History ts}
      → get_elem? hs i ≡ some h
      → Reaches x h
      → Under v hs
      → Under (set v i x) hs
  Under-set_view (y ∷ v) (l ∷ hs) zero x {h} e r u = let q : l ≡ h = cc in (rw q r, u.1)
  Under-set_view (y ∷ v) (l ∷ hs) (suc i) x e r u = (u.0, Under-set_view v hs i x e r u.1)
  Under-set_view [] [] i x e r u = tt
  Under-set_view [] (l ∷ hs) i x e r u = absurd u
  Under-set_view (y ∷ v) [] i x e r u = absurd u
