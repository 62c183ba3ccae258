-- ===== src/Storage/Pso/Buffers.antt =====
-- `class AddressBuffer` and `class ThreadBuffer` of src/Storage/PartialStoreOrderStorageManager.h.
use weak_memory_models_mock.Base.{
  ℕ, ◌≡◌, refl, Bool, true, false, Option, none, some, ℤ, List, [], ◌∷◌, ◌++◌, Result, ok, ◌>>=◌,
  at, set_at, replicate,
}

-- `std::deque<int32_t>`, the front first
abbrev pub AddressBuffer : Type 0
AddressBuffer = List ℤ

unfoldable pub push : AddressBuffer → ℤ → AddressBuffer
push b v = b ++ (v ∷ [])

unfoldable pub pop : AddressBuffer → Option ℤ × AddressBuffer
pop [] = (none, [])
pop (v ∷ b) = (some v, b)

unfoldable pub empty : AddressBuffer → Bool
empty [] = true
empty (v ∷ b) = false

-- The back of a deque that is not empty.
back : ℤ → AddressBuffer → ℤ
back v [] = v
back v (w ∷ b) = back w b

unfoldable pub last : AddressBuffer → Option ℤ
unfolding back
last [] = none
last (v ∷ b) = some (back v b)

-- One buffer for each address.
abbrev pub ThreadBuffer : Type 0
ThreadBuffer = List AddressBuffer

abbrev pub create : ℕ → ThreadBuffer
create size = replicate size []

unfoldable pub push_at : ThreadBuffer → ℕ → ℤ → Result ThreadBuffer
push_at tb a v = do b ← at tb a; set_at tb a (push b v)

unfoldable pub pop_at : ThreadBuffer → ℕ → Result (Option ℤ × ThreadBuffer)
pop_at tb a = do b ← at tb a; let popped = pop b; tb' ← set_at tb a popped.1; ok (popped.0, tb')

unfoldable pub find : ThreadBuffer → ℕ → Result (Option ℤ)
find tb a = at tb a >>= λ b. ok (last b)

unfoldable pub get_buffer : ThreadBuffer → ℕ → Result AddressBuffer
get_buffer tb a = at tb a

pub last-cons :
    (v : ℤ) (b : AddressBuffer) → last (v ∷ b) ≡ elim (last b) [ some w ↦ some w | none ↦ some v ]
unfolding last
last-cons v [] = refl
last-cons v (w ∷ b) = refl

pub last-push : (b : AddressBuffer) (v : ℤ) → last (push b v) ≡ some v
unfolding push last
last-push [] v = refl
last-push (w ∷ b) v = rw (last-cons w (b ++ (v ∷ [])), last-push b v)
