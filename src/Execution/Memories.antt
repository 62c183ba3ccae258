-- ===== src/Execution/Memories.antt =====
-- The storage managers as memories of a run.
use weak_memory_models_mock.Base.{
  ℕ, ◌≡◌, some, Bool, true, false, ℤ, ◌==ℤ◌, add32, ok, Fault, ◌>>=◌, if◌then◌else◌, at, get_elem?,
  Option-cases, inl, inr, EndsIn, >>=-EndsIn, IsProper, add32-OnlyOverflows, Result-cases,
}
use weak_memory_models_mock.Storage.Memory.{Storage}
use weak_memory_models_mock.Storage.Memory
use weak_memory_models_mock.Storage.Logger.{Entry}
use weak_memory_models_mock.Storage.Sc.{
  Sc, load, store, compare_and_swap, fetch_and_increment, fence, internal_update,
}
use weak_memory_models_mock.Storage.Sc
use weak_memory_models_mock.Execution.Steps.{Behaves, at_lem}

abbrev pub Any : {A : Type 0} → A → Type 0
Any a = Unit

store_lem :
    (m : Storage) (a : ℕ) (x : ℤ) (s : Sc)
    → EndsIn IsProper Any (Memory.store m a x >>= λ storage. ok (record s { storage = storage }))
store_lem m a x s = elim (Option-cases (get_elem? m a)) [ inl e ↦ rw e tt | inr (y, e) ↦ rw e tt ]

pub add32_lem : (a b : ℤ) → EndsIn IsProper Any (add32 a b)
add32_lem a b = elim (Result-cases (add32 a b)) [
  | inl (c, e) ↦ rw e tt
  | inr (f, e) ↦
      let h = add32-OnlyOverflows a b in let q : f ≡ Fault.overflow = (rw e at h) in rw (e, q) tt
]

-- The SC manager keeps to what the threads of a run rely on, in every state and with any number of
-- threads.
pub sc-Behaves : (n : ℕ) → Behaves Sc.manager n (λ (s : Sc). Unit)
unfolding load store compare_and_swap fetch_and_increment fence internal_update
sc-Behaves n = record {
  load = λ s t a o _ _.
      >>=-EndsIn IsProper Any Any (at s.storage a) _ (at_lem s.storage a) (λ v _. tt);
  store = λ s t a x o _ _. store_lem s.storage a x (Sc.logged s (Entry.store t a x o));
  compare_and_swap = λ s t a x y o _ _.
      >>=-EndsIn IsProper Any Any (at s.storage a) _ (at_lem s.storage a) (λ v _.
        swap (v ==ℤ x) s.storage a y (Sc.logged s (Entry.compare_and_swap t a x (some v) y o)));
  fetch_and_increment = λ s t a i o _ _.
      >>=-EndsIn IsProper Any Any (at s.storage a) _ (at_lem s.storage a) (λ v _.
        >>=-EndsIn IsProper Any Any (add32 v i) _ (add32_lem v i) (λ sum _.
          store_lem s.storage a sum (Sc.logged s (Entry.fetch_and_increment t a i o false))));
  fence = λ s t o _ _. tt;
  internal_update = λ s _. tt;
}
  where
    swap :
        (b : Bool) (m : Storage) (a : ℕ) (y : ℤ) (s : Sc)
        → EndsIn IsProper Any (
            if b
            then (Memory.store m a y >>= λ storage. ok (record s { storage = storage }))
            else ok s)
    swap true m a y s = store_lem m a y s
    swap false m a y s = tt
