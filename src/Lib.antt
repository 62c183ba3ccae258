-- ===== src/Lib.antt =====
-- A model of Weak Memory Models Mock: an interpreter that runs small concurrent programs step
-- by step on a simulated memory, under sequential consistency (SC), total store order (TSO),
-- partial store order (PSO), or the release-acquire model and its strong variant (RA, SRA).
--
-- The parts. A storage manager (src/Storage/StorageManager.h) offers five operations to the
-- threads, load, store, compareAndSwap, fetchAndIncrement and fence, and one to the executor,
-- internalUpdate, which lets the memory take a step of its own. Each model has one manager,
-- and each manager but the SC one asks an update manager, random or interactive (TSO and PSO
-- have a sequential one too), what happens next: which buffered store reaches the storage,
-- which message a load reads, which timestamp a store gets.
--
-- How the code is modelled.
--   - A manager is a record with the fields of its class, and each member function is a
--     function from the state and its arguments to a `Result`: the new state with the value
--     that is returned, or a `Fault`. The faults are the exceptions (out_of_range of
--     `vector::at`, the run-time errors of the update managers), assertions, and the undefined
--     behaviour that the code can meet: an int32_t operation that overflows, `operator[]`,
--     `front` or `back` outside a container, a draw from an empty range. No caller catches an
--     exception, so no state follows a fault.
--   - The update manager, an object that the storage manager owns, is a record of functions
--     over a state of its own that is passed along; the state of a manager with it is the pair
--     of both.
--   - The logger is a list of entries, newest first, one for each call of StorageLogger with
--     the arguments of that call.
--   - int32_t is the type ℤ of Base/Int with the range tested after each operation; size_t is
--     ℕ.
--   - std::shuffle, std::uniform_int_distribution, std::cin and double are parameters:
--     `Shuffle`, `Uniform`, `Console`, `Input` and `Timestamps` state what the code relies on.
--     `Timestamps` asks of double a strict total order and nothing of its arithmetic, so what
--     is shown holds for any rounding.
--
-- Which file models which code.
--   - Base and its children: the results and faults, lists as vectors, integers, counted
--     loops.
--   - Storage/Memory: `Storage` of src/Storage/Storage.h and src/Storage/src/Storage.cpp.
--   - Storage/AccessMode, Storage/Logger, Storage/Manager:
--     src/Storage/StorageMemoryAccessMode.h, src/Storage/StorageLogger.h and
--     src/Storage/StorageManager.h.
--   - Storage/Output: the lines of src/Storage/src/StorageLogger.cpp with the log level, and
--     `writeStorage` of the SC, the TSO and the PSO manager; Execution/Output: `writeState`.
--   - Storage/Sc: src/Storage/src/SequentialConsistencyStorageManager.cpp.
--   - Storage/Tso: src/Storage/src/TotalStoreOrderStorageManager.cpp; Tso/Buffer its `Buffer`,
--     and Tso/Updates its three update managers. Tso/Machine is the abstract machine of total
--     store order that the manager is compared with.
--   - Storage/Pso: src/Storage/src/PartialStoreOrderStorageManager.cpp; Pso/Buffers its
--     `AddressBuffer` and `ThreadBuffer`, and Pso/Updates its three update managers.
--     Pso/Machine is the abstract machine of partial store order that the manager is compared
--     with.
--   - Storage/Ra: src/Storage/src/ReleaseAcquireStorageManager.cpp; Ra/Timestamps its `View`,
--     Ra/Messages its `Message` and `SortedMessageHistory`, and Ra/Updates its two update
--     managers.
--   - Storage/Solo: a thread that is alone with a manager, as a relation between that manager
--     and SC.
--   - Storage/Turns: the calls of all threads and the internal updates of a manager, one after
--     the other.
--   - Program: src/Program/Instructions.h, src/Program/Program.h and
--     src/Program/src/Program.cpp; Program/Printer: src/Program/src/Instructions.cpp.
--   - Program/Names, Program/Parser, Program/Stream: the maps of src/Program/Parser.h, and
--     `parseLine` and `parseFromStream` of src/Program/src/Parser.cpp with what they call. A
--     text is a list of bytes; Base/Text has the words and lines that a stream gives of one,
--     and Base/Decimal the numbers that `<<` writes and `>>` reads.
--   - Execution/Thread, Execution/Threads: src/Execution/src/Thread.cpp and
--     src/Execution/src/ThreadManager.cpp; Execution/Random and Execution/Interactive the two
--     executors of src/Execution/src/Executor.cpp. They take the interface of the storage
--     managers as an argument. Execution/Steps states what they rely on, the record `Behaves`,
--     and Execution/Memories, Execution/Tso and Execution/Pso fill it for the SC, the TSO and
--     the PSO manager.
--   - Main: src/main.cpp, with the loop over the steps of the random executor in
--     Execution/Random.
-- The other children of Storage/Tso, Storage/Pso and Storage/Ra hold what is shown of these,
-- and the modules named Tests evaluate them at concrete states.
--
-- Loops. `while (propagate(…)) {}` runs on as many rounds as the buffer holds stores, and one
-- more; the loop of internalUpdate on a round for each thread and one more in TSO, and on a
-- number that is an argument in PSO, for the random update manager a round for each of its
-- pairs after the reset and one more. evaluateThreadLocalInstructions and the loop of `main`
-- run on a number of rounds that is an argument, since neither ends on every program. The
-- theorems on flushing, on progress and on runs show when these are enough. The other loops
-- are recursion on the list that they run over. The loops of the interactive update managers
-- read one token in each round. Those of the interactive executor run on a round for each read
-- that can succeed and one more, which is enough as long as what is typed for a thread is a
-- number; after a failed read the loop that asks for a thread can go on for ever.
--
-- In the release-acquire manager a `MessageRef` is a reference into a log. The one write
-- through it is that of the flag `isUsedByAtomicUpdate`, and `Choice` carries the key of the
-- message whose flag is to be set, which `mark` sets in the log.
--
-- Not modelled: the questions to the user and the texts of the release-acquire manager, which
-- are output (its views go through `join` of src/Storage/Util.h, which reads a variable that
-- is not initialised); and of src/main.cpp the file that is opened, when the texts are
-- written, and the mode `interact`, in which the executor and the update managers read from
-- one input. Execution/Interactive has that input as a part of the state of the memory.
mod Base
pub mod Storage
pub mod Program
pub mod Execution
pub mod Main
