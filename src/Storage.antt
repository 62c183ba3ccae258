-- ===== src/Storage.antt =====
-- src/Storage: the shared memory under each memory model.
pub mod AccessMode
pub mod Logger
pub mod Memory
pub mod Manager
pub mod Sc
pub mod Solo
pub mod Turns
pub mod Tso
pub mod Pso
pub mod Ra
pub mod Output
