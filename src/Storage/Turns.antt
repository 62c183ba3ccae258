-- ===== src/Storage/Turns.antt =====
-- The calls of all threads and the updates of a storage manager, in any order.
use weak_memory_models_mock.Base.{
  ℕ, ◌<◌, ◌≡◌, Option, none, some, ℤ, add32, List, [], ◌∷◌, ok, Result, ◌>>=◌,
}
use weak_memory_models_mock.Storage.Manager.{
  StorageManager, Operation, perform, thread_of, Addresses,
}

-- A call of a thread, or an internal update.
pub data Turn : Type 0 where
  call : Operation → Turn
  update : Turn

-- What the calls return, in their order, and the state after them.
unfoldable pub interleave :
    {S : Type 0} → StorageManager S → List Turn → S → Result (List (Option ℤ) × S)
interleave manager [] x = ok ([], x)
interleave manager (Turn.call op ∷ turns) x =
    perform manager op x >>= λ r. interleave manager turns r.1 >>= λ rest. ok (r.0 ∷ rest.0, rest.1)
interleave manager (Turn.update ∷ turns) x =
    manager.internal_update x >>= λ r. interleave manager turns r.1

module _ (P : ℤ → Type 0) where
  -- A call that brings in no value without the property.
  abbrev pub Brings : Operation → Type 0
  Brings (Operation.load t a o) = Unit
  Brings (Operation.store t a v o) = P v
  Brings (Operation.compare_and_swap t a expected new o) = P new
  Brings (Operation.fetch_and_increment t a i o) = (x y : ℤ) → P x → add32 x i ≡ ok y → P y
  Brings (Operation.fence t o) = Unit

  -- By a thread and to an address that exist.
  abbrev pub Admits : ℕ → ℕ → Turn → Type 0
  Admits threads size (Turn.call op) = (thread_of op < threads) × Addresses size op × Brings op
  Admits threads size Turn.update = Unit

  abbrev pub Returned : Option ℤ → Type 0
  Returned none = Unit
  Returned (some v) = P v
