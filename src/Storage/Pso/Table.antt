-- ===== src/Storage/Pso/Table.antt =====
-- The pairs of a thread and an address, in the order of `RandomInternalUpdateManager::reset`.
use weak_memory_models_mock.Base.{
  ℕ, zero, suc, ◌+◌, ◌*◌, ◌≤◌, ◌<◌, ◌≡◌, refl, ap, List, [], ◌∷◌, ◌++◌, arith, length, All,
  length-append,
}
use native.Mathlib.Decide.{ℕ_discrete}
use weak_memory_models_mock.Storage.Pso.Updates.{row, table}

pub All-append_inv :
    (P : ℕ × ℕ → Type 0) (xs ys : List (ℕ × ℕ)) → All P (xs ++ ys) → All P xs × All P ys
All-append_inv P [] ys h = (tt, h)
All-append_inv P (x ∷ xs) ys h = let (l, r) = All-append_inv P xs ys h.1 in ((h.0, l), r)

pub row-All :
    (P : ℕ × ℕ → Type 0) (t from n a : ℕ)
    → All P (row t from n)
    → from ≤ a
    → a < from + n
    → P (t, a)
row-All P t from zero a h k l = absurd (omega arith)
row-All P t from (suc n) a h k l = elim (ℕ_discrete from a) [
  | yes e ↦ rw (← e) h.0
  | no e ↦ row-All P t (suc from) n a h.1 (omega arith) (omega arith)
]

pub table-All :
    (P : ℕ × ℕ → Type 0) (from k size t a : ℕ)
    → All P (table from k size)
    → from ≤ t
    → t < from + k
    → a < size
    → P (t, a)
table-All P from zero size t a h x y z = absurd (omega arith)
table-All P from (suc k) size t a h x y z =
    let (l, r) = All-append_inv P (row from 0 size) (table (suc from) k size) h in
    elim (ℕ_discrete from t) [
      | yes e ↦ rw (← e) (row-All P from 0 size a l (omega arith) (omega arith))
      | no e ↦ table-All P (suc from) k size t a r (omega arith) (omega arith) z
    ]

pub length-row : (t from n : ℕ) → length (row t from n) ≡ n
length-row t from zero = refl
length-row t from (suc n) = ap suc (length-row t (suc from) n)

pub length-table : (from k size : ℕ) → length (table from k size) ≡ k * size
length-table from zero size = omega arith
length-table from (suc k) size = omega (
  arith,
  length-append (row from 0 size) (table (suc from) k size),
  length-row from 0 size,
  length-table (suc from) k size,
)
