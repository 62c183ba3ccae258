-- ===== src/Execution.antt =====
-- src/Execution: the threads of a run, and the executor that lets them and the memory take steps.
pub mod Thread
pub mod Threads
pub mod Random
pub mod Steps
pub mod Numbers
pub mod Runs
pub mod Start
pub mod Local
pub mod Interactive
pub mod Asking
pub mod Stuck
pub mod Memories
pub mod TsoLoops
pub mod Tso
pub mod Drain
pub mod TsoDrain
pub mod PsoCalls
pub mod Pso
pub mod PsoDrain
mod Output
mod Tests
mod LoopTests
mod AskTests
