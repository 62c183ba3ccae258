-- ===== src/Storage/Tso/Updates.antt =====
-- The update managers of TSO: which buffer is propagated next.
use weak_memory_models_mock.Base.{
  ℕ, suc, not, Option, none, some, List, [], ◌∷◌, ltb, ◌==◌, if◌then◌else◌, length, get_elem?,
  indices, count, Shuffle,
}
use weak_memory_models_mock.Storage.Tso.Buffer
use weak_memory_models_mock.Storage.Tso.{UpdateManager}

-- `class SequentialInternalUpdateManager`
pub record Sequential : Type 0 where
  pub next_thread_id : ℕ
  pub max_thread_id : ℕ

unfoldable pub sequential : UpdateManager Sequential
sequential = record {
  reset = λ m s. record { next_thread_id = 0; max_thread_id = length s.thread_buffers };
  get_thread_id = λ m.
      if ltb m.next_thread_id m.max_thread_id
      then (some m.next_thread_id, record m { next_thread_id = suc m.next_thread_id })
      else (none, m);
}

-- `class RandomInternalUpdateManager`; `m_nextThreadIdIndex` counts into `m_threadIds`.
pub record Random (G : Type 0) : Type 0 where
  pub thread_ids : List ℕ
  pub next_thread_id_index : ℕ
  pub random_generator : G

module _ (sh : Shuffle) where
  open sh use {Generator, shuffle}

  unfoldable pub random : UpdateManager (Random Generator)
  random = record {
    reset = λ m s.
        let (ids, g) = shuffle ℕ m.random_generator (indices 0 (length s.thread_buffers)) in
        record { thread_ids = ids; next_thread_id_index = 0; random_generator = g };
    get_thread_id = λ m. elim (get_elem? m.thread_ids m.next_thread_id_index) [
      | some t ↦ (some t, record m { next_thread_id_index = suc m.next_thread_id_index })
      | none ↦ (none, m)
    ];
  }

-- `class InteractiveInternalUpdateManager`: the numbers that `std::cin` gives until it fails.
pub record Interactive : Type 0 where
  pub thread_ids : List ℕ
  pub input : List ℕ

-- The threads from `from` on whose buffers are not empty.
pub nonempty_from : ℕ → List Buffer.Buffer → List ℕ
unfolding Buffer.empty
nonempty_from from [] = []
nonempty_from from (b ∷ bs) =
    let rest = nonempty_from (suc from) bs in if not (Buffer.empty b) then from ∷ rest else rest

-- The loop that asks until it is given a thread of the list.
ask : List ℕ → List ℕ → Option ℕ × List ℕ
ask ids [] = (none, [])
ask ids (t ∷ input) =
    let again = ask ids input in if count t ids == 0 then again else (some t, input)

-- The test `m_threadIds.empty()`, and the loop after it.
choose : List ℕ → List ℕ → Option ℕ × List ℕ
unfolding ask
choose [] input = (none, input)
choose (t ∷ ids) input = ask (t ∷ ids) input

unfoldable pub interactive : UpdateManager Interactive
unfolding nonempty_from choose
interactive = record {
  reset = λ m s. record m { thread_ids = nonempty_from 0 s.thread_buffers };
  get_thread_id =
      λ m. let (t, input) = choose m.thread_ids m.input in (t, record m { input = input });
}
