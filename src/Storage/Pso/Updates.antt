-- ===== src/Storage/Pso/Updates.antt =====
-- The update managers of PSO: which thread's buffer, for which address, is propagated next.
use weak_memory_models_mock.Base.{
  ℕ, zero, suc, ◌+◌, ◌*◌, Bool, not, Option, none, some, List, [], ◌∷◌, ◌++◌, leb, ◌==◌, ◌&&◌,
  if◌then◌else◌, length, get_elem?, count_if, Shuffle,
}
use weak_memory_models_mock.Storage.Memory
use weak_memory_models_mock.Storage.Pso.Buffers.{ThreadBuffer}
use weak_memory_models_mock.Storage.Pso.Buffers
use weak_memory_models_mock.Storage.Pso.{Pso, UpdateManager}

-- `class SequentialInternalUpdateManager`
pub record Sequential : Type 0 where
  pub next_thread_id : ℕ
  pub max_thread_id : ℕ
  pub next_address : ℕ
  pub max_address : ℕ

-- The first test of `getThreadIdAndAddress`: on to the next thread after the last address.
abbrev pub wrap : Sequential → Sequential
wrap m =
    if leb m.max_address m.next_address
    then record m { next_thread_id = suc m.next_thread_id; next_address = 0 }
    else m

unfoldable pub sequential : UpdateManager Sequential
sequential = record {
  reset = λ m s. record {
    next_thread_id = 0;
    max_thread_id = length s.thread_buffers;
    next_address = 0;
    max_address = Memory.size s.storage;
  };
  get_thread_id_and_address = λ m.
      let m' = wrap m in
      if leb m'.max_thread_id m'.next_thread_id then (none, m') else (
        some (m'.next_thread_id, m'.next_address),
        record m' { next_address = suc m'.next_address },
      );
}

-- The addresses `from, …, from + n - 1` of one thread, and all addresses of several threads: the
-- two loops of `reset`.
abbrev pub row : ℕ → ℕ → ℕ → List (ℕ × ℕ)
row t from zero = []
row t from (suc n) = (t, from) ∷ row t (suc from) n

abbrev pub table : ℕ → ℕ → ℕ → List (ℕ × ℕ)
table from zero size = []
table from (suc n) size = row from 0 size ++ table (suc from) n size

-- `class RandomInternalUpdateManager`
pub record Random (G : Type 0) : Type 0 where
  pub pairs : List (ℕ × ℕ)
  pub next_index : ℕ
  pub random_generator : G

module _ (sh : Shuffle) where
  open sh use {Generator, shuffle}

  -- `reset` appends to the pairs that are there.
  unfoldable pub random : UpdateManager (Random Generator)
  random = record {
    reset = λ m s.
        let (pairs, g) =
          shuffle (ℕ × ℕ) m.random_generator
            (m.pairs ++ table 0 (length s.thread_buffers) (Memory.size s.storage)) in
        record { pairs = pairs; next_index = 0; random_generator = g };
    get_thread_id_and_address = λ m. elim (get_elem? m.pairs m.next_index) [
      | some pair ↦ (some pair, record m { next_index = suc m.next_index })
      | none ↦ (none, m)
    ];
  }

-- A round for each pair after the next reset, and one in which there is none left.
abbrev pub random_rounds : {G : Type 0} → Random G → Pso → ℕ
random_rounds m s = suc (length m.pairs + length s.thread_buffers * Memory.size s.storage)

-- `class InteractiveInternalUpdateManager`: the pairs of numbers that `std::cin` gives until it
-- fails.
pub record Interactive : Type 0 where
  pub pairs : List (ℕ × ℕ)
  pub input : List (ℕ × ℕ)

-- The addresses from `a` on for which thread `t` has something buffered, then the same for the
-- threads from `t` on.
pub nonempty_row : ℕ → ℕ → ThreadBuffer → List (ℕ × ℕ)
unfolding Buffers.empty
nonempty_row t a [] = []
nonempty_row t a (b ∷ tb) =
    let rest = nonempty_row t (suc a) tb in if not (Buffers.empty b) then (t, a) ∷ rest else rest

pub nonempty_from : ℕ → List ThreadBuffer → List (ℕ × ℕ)
unfolding nonempty_row
nonempty_from t [] = []
nonempty_from t (tb ∷ tbs) = nonempty_row t 0 tb ++ nonempty_from (suc t) tbs

-- `operator==` of pairs
abbrev pub same_pair : ℕ × ℕ → ℕ × ℕ → Bool
same_pair x y = (x.0 == y.0) && (x.1 == y.1)

-- The loop that asks until it is given a pair of the list.
ask : List (ℕ × ℕ) → List (ℕ × ℕ) → Option (ℕ × ℕ) × List (ℕ × ℕ)
ask pairs [] = (none, [])
ask pairs (p ∷ input) =
    let again = ask pairs input in
    if count_if (λ q. same_pair q p) pairs == 0 then again else (some p, input)

choose : List (ℕ × ℕ) → List (ℕ × ℕ) → Option (ℕ × ℕ) × List (ℕ × ℕ)
unfolding ask
choose [] input = (none, input)
choose (p ∷ pairs) input = ask (p ∷ pairs) input

unfoldable pub interactive : UpdateManager Interactive
unfolding nonempty_from choose
interactive = record {
  reset = λ m s. record m { pairs = nonempty_from 0 s.thread_buffers };
  get_thread_id_and_address =
      λ m. let (p, input) = choose m.pairs m.input in (p, record m { input = input });
}
