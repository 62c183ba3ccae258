-- ===== src/Storage/AccessMode.antt =====
-- src/Storage/StorageMemoryAccessMode.h.

-- `enum class MemoryAccessMode` of the namespace `storage`
pub data AccessMode : Type 0 where
  sequential_consistency release acquire release_acquire relaxed : AccessMode
