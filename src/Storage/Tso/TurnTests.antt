-- ===== src/Storage/Tso/TurnTests.antt =====
-- Calls of two threads under TSO, as steps of the abstract machine and in an order with updates.
use weak_memory_models_mock.Base.{
  ◌≡◌, refl, Option, ℤ, pos, negsuc, List, [], ◌∷◌, arith, Fault, EndsIn, All,
}
use weak_memory_models_mock.Storage.AccessMode.{AccessMode}
use weak_memory_models_mock.Storage.Manager.{Operation, perform}
use weak_memory_models_mock.Storage.Tso.Buffer.{Buffer}
use weak_memory_models_mock.Storage.Tso.{Tso}
use weak_memory_models_mock.Storage.Tso
use weak_memory_models_mock.Storage.Tso.Updates.{Sequential, sequential}
use weak_memory_models_mock.Storage.Tso.Progress.{sequential-Covers}
use weak_memory_models_mock.Storage.Tso.Refines.{Refines, perform-Refines}
use weak_memory_models_mock.Storage.Turns.{Turn, call, update, interleave, Returned}
use weak_memory_models_mock.Storage.Tso.Interleaving.{IsSupplied, interleave-Returned}

abbrev relaxed : AccessMode
relaxed = AccessMode.relaxed

-- Thread 0 has buffered two stores to address 0.
abbrev two_stores : Buffer
two_stores = record { address = 0; value = pos 1 } ∷ record { address = 0; value = pos 2 } ∷ []

abbrev memory : Tso
memory = record { storage = pos 0 ∷ pos 0 ∷ []; thread_buffers = two_stores ∷ [] ∷ []; log = [] }

abbrev first : Sequential
first = record { next_thread_id = 0; max_thread_id = 0 }

abbrev swap : Operation
swap = Operation.compare_and_swap 0 0 (pos 2) (pos 3) relaxed

perform-Refines_example :
    EndsIn
      (λ fault. fault ≡ Fault.overflow)
      (Refines memory swap two_stores)
      (perform (Tso.manager sequential) swap (first, memory))
perform-Refines_example =
    perform-Refines sequential first memory swap two_stores (omega arith) refl (omega arith)

-- A property of values: that they are not negative.
abbrev IsNatural : ℤ → Type 0
IsNatural (pos n) = Unit
IsNatural (negsuc n) = ⊥

abbrev turns : List Turn
turns =
    call (Operation.load 1 0 relaxed)
    ∷ update
    ∷ call (Operation.load 1 0 relaxed)
    ∷ call (Operation.store 1 1 (pos 5) relaxed)
    ∷ call swap
    ∷ update
    ∷ call (Operation.load 0 1 relaxed)
    ∷ []

memory-IsSupplied : IsSupplied IsNatural 2 2 memory
memory-IsSupplied = record {
  valid = omega arith;
  threads = refl;
  size = refl;
  holds = record { memory = (tt, (tt, tt)); queues = ((tt, (tt, tt)), (tt, tt)) };
}

interleave-Returned_example :
    EndsIn
      (λ fault. fault ≡ Fault.overflow)
      (λ (r : List (Option ℤ) × (Sequential × Tso)).
        All (Returned IsNatural) r.0 × IsSupplied IsNatural 2 2 r.1.1)
      (interleave (Tso.manager sequential) turns (first, memory))
interleave-Returned_example =
    interleave-Returned IsNatural sequential sequential-Covers 2 2 turns (first, memory)
      memory-IsSupplied
      (
        (omega arith, omega arith, tt),
        (
          tt,
          (
            (omega arith, omega arith, tt),
            (
              (omega arith, omega arith, tt),
              ((omega arith, omega arith, tt), (tt, ((omega arith, omega arith, tt), tt))),
            ),
          ),
        ),
      )
