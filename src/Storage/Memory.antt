-- ===== src/Storage/Memory.antt =====
-- src/Storage/Storage.h and src/Storage/src/Storage.cpp: a vector of int32_t with checked access.
-- The class has one field, so its values are the vectors.
use weak_memory_models_mock.Base.{
  ℕ, ◌≡◌, ◌<◌, ok, ℤ, pos, List, replicate, length, set, Result, at, set_at, get_elem?-lt, arith,
}

abbrev pub Storage : Type 0
Storage = List ℤ

-- The constructor: all zeros.
abbrev pub create : ℕ → Storage
create n = replicate n (pos 0)

abbrev pub size : Storage → ℕ
size m = length m

abbrev pub load : Storage → ℕ → Result ℤ
load m address = at m address

abbrev pub store : Storage → ℕ → ℤ → Result Storage
store m address value = set_at m address value

pub store-ok : (m : Storage) (a : ℕ) (v : ℤ) → a < size m → store m a v ≡ ok (set m a v)
store-ok m a v h = let (c, e) = get_elem?-lt m a h in ground (arith, e)
