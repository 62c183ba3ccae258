-- ===== src/Storage/Ra/Timestamps.antt =====
-- `double` as the timestamps of src/Storage/ReleaseAcquireStorageManager.h use it, and `class View`.
use weak_memory_models_mock.Base.{
  ℕ, ◌≡◌, Bool, true, false, not, ◌||◌, List, [], ◌∷◌, Result, ok, err, Fault, replicate,
  if◌then◌else◌,
}

-- The numbers that occur as timestamps: the doubles without NaN. `next t` is `t + 1` and `middle a b`
-- is `(a + b) / 2`, as the hardware rounds them; `<` is a strict total order. That `next t` is
-- greater than `t` is no law: it fails from 2 ^ 53 on.
pub record Timestamps : Type 1 where
  pub T : Type 0
  pub lt : T → T → Bool
  pub zero : T
  pub infinity : T
  pub next : T → T
  pub middle : T → T → T
  pub lt_irrefl : (a : T) → lt a a ≡ false
  pub lt_trans : (a b c : T) → lt a b ≡ true → lt b c ≡ true → lt a c ≡ true
  pub lt_connex : (a b : T) → lt a b ≡ false → lt b a ≡ false → a ≡ b

module _ (ts : Timestamps) where
  open ts use {T, lt, middle}

  -- `middleTimestamp`; on a total order `newTimestamp <= lhs` is `!(lhs < newTimestamp)`.
  unfoldable pub middle_timestamp : T → T → Result T
  middle_timestamp lhs rhs =
      if lt lhs rhs
      then (let t = middle lhs rhs in
          if not (lt lhs t) || not (lt t rhs) then err Fault.no_timestamp else ok t)
      else err Fault.assertion

  -- `std::min`
  abbrev pub min_of : T → T → T
  min_of a b = if lt b a then b else a

  -- `class View`: one timestamp for each location.
  abbrev pub View : Type 0
  View = List T

  abbrev pub create : ℕ → View
  create n = replicate n ts.zero

  -- `operator|=`. Where the other view is shorter the source reads outside it; all views of a
  -- manager have one size.
  unfoldable pub join : View → View → View
  join [] w = []
  join (x ∷ v) [] = x ∷ v
  join (x ∷ v) (y ∷ w) = (if lt x y then y else x) ∷ join v w

  -- `operator&=`
  unfoldable pub meet : View → View → View
  meet [] w = []
  meet (x ∷ v) [] = x ∷ v
  meet (x ∷ v) (y ∷ w) = (if lt y x then y else x) ∷ meet v w
