-- ===== src/Storage/Ra/Start.antt =====
-- The state that the constructor of the release-acquire manager makes.
use weak_memory_models_mock.Base.{
  ℕ, zero, suc, ◌≡◌, refl, ap, ◌∙◌, inl, List, [], ◌∷◌, arith, length, All, All-replicate, indices,
  length-indices, All-indices, ◌<◌,
}
use weak_memory_models_mock.Storage.Ra.Timestamps.{Timestamps, View}
use weak_memory_models_mock.Storage.Ra.Timestamps
use weak_memory_models_mock.Storage.Ra.Messages.{History}
use weak_memory_models_mock.Storage.Ra.Order.{Le_refl, Under}
use weak_memory_models_mock.Storage.Ra.Invariant.{IsValid, IsSound}
use weak_memory_models_mock.Storage.Ra.{Model, create, histories}

module _ (ts : Timestamps) where
  length-histories : (n : ℕ) (ls : List ℕ) → length (histories ts n ls) ≡ length ls
  unfolding histories
  length-histories n [] = refl
  length-histories n (l ∷ ls) = ap suc (length-histories n ls)

  zeros-Under :
      (n k : ℕ) (ls : List ℕ)
      → length ls ≡ k
      → Under ts (Timestamps.create ts k) (histories ts n ls)
  unfolding histories
  zeros-Under n zero [] e = tt
  zeros-Under n (suc k) (l ∷ ls) e = (inl (Le_refl ts ts.zero), zeros-Under n k ls (omega arith))
  zeros-Under n zero (l ∷ ls) e = absurd (omega arith)
  zeros-Under n (suc k) [] e = absurd (omega arith)

  histories-IsSound :
      (n : ℕ) (ls : List ℕ) (hs : List (History ts))
      → Under ts (Timestamps.create ts n) hs
      → All (λ l. l < length hs) ls
      → All (All (IsSound ts hs)) (histories ts n ls)
  unfolding histories
  histories-IsSound n [] hs u all = tt
  histories-IsSound n (l ∷ ls) hs u all = (((u, tt, all.0), tt), histories-IsSound n ls hs u all.1)

  -- The state that the constructor makes is valid.
  pub create-IsValid :
      (size threads : ℕ) (model : Model) → IsValid ts (create ts size threads model)
  unfolding create
  create-IsValid size threads model =
      let n = length-indices 0 (suc size) in
      let hs = histories ts (suc size) (indices 0 (suc size)) in
      let u : Under ts (Timestamps.create ts (suc size)) hs =
        zeros-Under (suc size) (suc size) (indices 0 (suc size)) n in
      let l = length-histories (suc size) (indices 0 (suc size)) in
      record {
        bases = refl;
        size = l ∙ n;
        threads = All-replicate (λ v. Under ts v hs) threads _ u;
        base = All-replicate (λ v. Under ts v hs) threads _ u;
        logs =
            histories-IsSound (suc size) (indices 0 (suc size)) hs u
              (All-indices 0 (suc size) (length hs) (omega (arith, l, n)));
      }
