-- ===== src/Storage/Tso/Buffer.antt =====
-- `struct StoreInstruction` and `class Buffer` of src/Storage/TotalStoreOrderStorageManager.h.
use mathlib.Core.List.{reverse, reverse-cons}
use mathlib.Core.Option
use weak_memory_models_mock.Base.{
  ℕ, ◌<◌, ◌≡◌, refl, ap, ◌∙◌, Bool, true, false, Option, none, some, ℤ, List, [], ◌∷◌, ◌++◌, arith,
  ◌==◌, if◌then◌else◌, length, set, get_elem?, get_elem?-set, length-set, All,
}
use weak_memory_models_mock.Storage.Memory.{Storage}

pub record StoreInstruction : Type 0 where
  pub address : ℕ
  pub value : ℤ

-- `std::deque<StoreInstruction>`, the front first
abbrev pub Buffer : Type 0
Buffer = List StoreInstruction

-- `std::find_if` over a sequence
unfoldable pub find_if {ℓ} : {A : Type ℓ} → (A → Bool) → List A → Option A
find_if p [] = none
find_if p (x ∷ xs) = if p x then some x else find_if p xs

unfoldable pub push : Buffer → StoreInstruction → Buffer
push b i = b ++ (i ∷ [])

unfoldable pub pop : Buffer → Option StoreInstruction × Buffer
pop [] = (none, [])
pop (i ∷ b) = (some i, b)

unfoldable pub find : Buffer → ℕ → Option ℤ
find b address = Option.map (λ i. i.value) (find_if (λ i. i.address == address) (reverse b))

unfoldable pub empty : Buffer → Bool
empty [] = true
empty (i ∷ b) = false

-- The value that the newest store to an address left in the buffer.
unfoldable pub latest : Buffer → ℕ → Option ℤ
latest [] a = none
latest (i ∷ b) a = elim (latest b a) [
  | some v ↦ some v
  | none ↦ if i.address == a then some i.value else none
]

-- The storage after all stores of a buffer, the oldest first.
unfoldable pub drain : Buffer → Storage → Storage
drain [] m = m
drain (i ∷ b) m = drain b (set m i.address i.value)

-- Every buffered store is to an address of the storage.
abbrev pub InRange : ℕ → Buffer → Type 0
InRange n = All (λ i. i.address < n)

find_if-append {ℓ} :
    {A : Type ℓ} (p : A → Bool) (xs : List A) (x : A)
    → find_if p (xs ++ (x ∷ []))
      ≡ elim (find_if p xs) [ some y ↦ some y | none ↦ if p x then some x else none ]
unfolding find_if
find_if-append p [] x = refl
find_if-append p (y ∷ xs) x = ground (arith, find_if-append p xs x)

pub find-eq-latest : (b : Buffer) (a : ℕ) → find b a ≡ latest b a
unfolding find latest find_if
find-eq-latest [] a = refl
find-eq-latest (i ∷ b) a = ground (
  arith,
  reverse-cons i b,
  find-eq-latest b a,
  find_if-append (λ (j : StoreInstruction). j.address == a) (reverse b) i,
)

pub latest-push :
    (b : Buffer) (i : StoreInstruction) (a : ℕ)
    → latest (push b i) a ≡ (if i.address == a then some i.value else latest b a)
unfolding latest push
latest-push [] i a = ground arith
latest-push (j ∷ b) i a = ground (arith, latest-push b i a)

pub drain-push :
    (b : Buffer) (i : StoreInstruction) (m : Storage)
    → drain (push b i) m ≡ set (drain b m) i.address i.value
unfolding drain push
drain-push [] i m = refl
drain-push (j ∷ b) i m = drain-push b i (set m j.address j.value)

pub push-InRange :
    (n : ℕ) (b : Buffer) (i : StoreInstruction) → InRange n b → i.address < n → InRange n (push b i)
unfolding push
push-InRange n [] i h k = (k, tt)
push-InRange n (j ∷ b) i h k = (h.0, push-InRange n b i h.1 k)

pub length-drain : (b : Buffer) (m : Storage) → length (drain b m) ≡ length m
unfolding drain
length-drain [] m = refl
length-drain (i ∷ b) m = length-drain b (set m i.address i.value) ∙ length-set m i.address i.value

-- What a drained storage holds: the newest buffered value, or what was there.
pub get_elem?-drain :
    (b : Buffer) (m : Storage) (a : ℕ)
    → InRange (length m) b
    → get_elem? (drain b m) a ≡ elim (latest b a) [ some v ↦ some v | none ↦ get_elem? m a ]
unfolding drain latest
get_elem?-drain [] m a h = refl
get_elem?-drain (i ∷ b) m a h = ground (
  arith,
  get_elem?-drain b (set m i.address i.value) a,
  length-set m i.address i.value,
  get_elem?-set m i.address a i.value h.0,
  ap (λ n. InRange n b) (length-set m i.address i.value),
)
