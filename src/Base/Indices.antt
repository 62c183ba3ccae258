-- ===== src/Base/Indices.antt =====
-- Lists of indices: counted loops, and what `std::shuffle` may do with a list.
use Prim.Native.Nat.{ℕ, zero, suc, ◌+◌, ◌≤◌, ◌<◌}
use mathlib.Core.Path.{◌≡◌, refl, sym, ◌∙◌, ap, subst}
use mathlib.Core.Bool.{Bool, true}
use mathlib.Core.List.{List, [], ◌∷◌, ◌++◌}
use mathlib.Core.Logic.{inl, inr}
use native.Mathlib.Omega.{arith}
use native.Mathlib.Decide.{ℕ_discrete}
use weak_memory_models_mock.Base.Tests.{◌==◌, if◌then◌else◌, Bool-cases}
use weak_memory_models_mock.Base.Lists.{length, All}

-- `for (i = from; i < from + n; ++i)`
abbrev pub indices : ℕ → ℕ → List ℕ
indices from zero = []
indices from (suc n) = from ∷ indices (suc from) n

pub length-indices : (from n : ℕ) → length (indices from n) ≡ n
length-indices from zero = refl
length-indices from (suc n) = ap suc (length-indices (suc from) n)

pub All-indices :
    (from n : ℕ) → (bound : ℕ) → from + n ≤ bound → All (λ t. t < bound) (indices from n)
All-indices from zero bound h = tt
All-indices from (suc n) bound h = (omega arith, All-indices (suc from) n bound (omega arith))

-- How many elements pass a test.
abbrev pub count_if {ℓ} : {A : Type ℓ} → (A → Bool) → List A → ℕ
count_if p [] = 0
count_if p (x ∷ xs) = (if p x then 1 else 0) + count_if p xs

-- How often a number occurs.
abbrev pub count : ℕ → List ℕ → ℕ
count a = count_if (λ x. x == a)

pub count-indices : (from n a : ℕ) → from ≤ a → a < from + n → 0 < count a (indices from n)
count-indices from zero a h k = absurd (omega arith)
count-indices from (suc n) a h k = ground (arith, count-indices (suc from) n a)

pub count-indices_lt : (from n a : ℕ) → 0 < count a (indices from n) → a < from + n
count-indices_lt from zero a h = absurd (omega arith)
count-indices_lt from (suc n) a h = ground (arith, count-indices_lt (suc from) n a)

-- What holds of every number that occurs holds of all elements.
pub each_of_count {κ} : (P : ℕ → Type κ) (xs : List ℕ) → ((a : ℕ) → 0 < count a xs → P a) → All P xs
each_of_count P [] h = tt
each_of_count P (x ∷ xs) h = (h x (ground arith), each_of_count P xs (λ a k. h a (omega arith)))

-- What holds of all elements holds of one that occurs.
pub All-count {κ} : (P : ℕ → Type κ) (xs : List ℕ) (a : ℕ) → All P xs → 0 < count a xs → P a
All-count P [] a h k = absurd (omega arith)
All-count P (x ∷ xs) a h k = elim (ℕ_discrete x a) [
  | yes e ↦ subst P e h.0
  | no e ↦ All-count P xs a h.1 (ground arith)
]

-- What holds of every element that passes a test holds of one, if one is counted.
pub All-count_if {ℓ κ} :
    {A : Type ℓ} (P : A → Type κ) (p : A → Bool) (xs : List A)
    → All P xs
    → 0 < count_if p xs
    → (x : A) × (p x ≡ true) × P x
All-count_if P p [] h k = absurd (omega arith)
All-count_if P p (x ∷ xs) h k = elim (Bool-cases (p x)) [
  | inl e ↦ (x, e, h.0)
  | inr e ↦ All-count_if P p xs h.1 (ground (arith, e))
]

pub length-count_if {ℓ} : {A : Type ℓ} (xs : List A) → count_if (λ x. true) xs ≡ length xs
length-count_if [] = refl
length-count_if (x ∷ xs) = omega (arith, length-count_if xs)

pub count_if-append {ℓ} :
    {A : Type ℓ} (p : A → Bool) (xs ys : List A)
    → count_if p (xs ++ ys) ≡ count_if p xs + count_if p ys
count_if-append p [] ys = omega arith
count_if-append p (x ∷ xs) ys = omega (arith, count_if-append p xs ys)

-- `std::shuffle` with a generator of random bits. What it documents is that it permutes: as many
-- elements pass any test as before.
pub record Shuffle : Type 1 where
  pub Generator : Type 0
  pub shuffle : (A : Type 0) → Generator → List A → List A × Generator
  pub count-shuffle :
      (A : Type 0) (g : Generator) (xs : List A) (p : A → Bool)
      → count_if p (shuffle A g xs).0 ≡ count_if p xs

pub length-shuffle :
    (sh : Shuffle) (A : Type 0) (g : sh.Generator) (xs : List A)
    → length (sh.shuffle A g xs).0 ≡ length xs
length-shuffle sh A g xs =
    sym (length-count_if (sh.shuffle A g xs).0)
    ∙ sh.count-shuffle A g xs (λ x. true)
    ∙ length-count_if xs
