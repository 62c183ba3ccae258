-- ===== src/Storage/Pso/Overlay.antt =====
-- The storage that a thread sees under PSO: at each address the newest value that it has buffered
-- for it, or what the storage holds. How it changes with the buffers and the storage.
use weak_memory_models_mock.Base.{
  ℕ, zero, suc, ◌≡◌, refl, ap, ◌∙◌, none, some, ℤ, [], ◌∷◌, arith, length, set, get_elem?,
  replicate, set-set, length-set, set-get_elem?, get_elem?-set_self,
}
use weak_memory_models_mock.Storage.Memory.{Storage}
use weak_memory_models_mock.Storage.Pso.Buffers.{
  AddressBuffer, ThreadBuffer, last, push, last-cons, last-push,
}

-- The newest buffered value, or another.
unfoldable pub newest : AddressBuffer → ℤ → ℤ
newest b c = elim (last b) [ some v ↦ v | none ↦ c ]

unfoldable pub overlay : ThreadBuffer → Storage → Storage
overlay (b ∷ tb) (c ∷ m) = newest b c ∷ overlay tb m
overlay [] m = m
overlay (b ∷ tb) [] = []

-- The storage after all stores of a buffer for the address `a`, the oldest first.
unfoldable pub drain : ℕ → AddressBuffer → Storage → Storage
drain a [] m = m
drain a (v ∷ b) m = drain a b (set m a v)

pub length-drain : (a : ℕ) (b : AddressBuffer) (m : Storage) → length (drain a b m) ≡ length m
unfolding drain
length-drain a [] m = refl
length-drain a (v ∷ b) m = length-drain a b (set m a v) ∙ length-set m a v

pub newest-nil : (c : ℤ) → newest [] c ≡ c
unfolding newest last
newest-nil c = refl

newest-cons : (v : ℤ) (b : AddressBuffer) (c : ℤ) → newest (v ∷ b) c ≡ newest b v
unfolding newest
newest-cons v b c = ground (arith, last-cons v b)

newest-push : (b : AddressBuffer) (v c : ℤ) → newest (push b v) c ≡ v
unfolding newest
newest-push b v c = rw (last-push b v, newest)

pub length-overlay : (tb : ThreadBuffer) (m : Storage) → length (overlay tb m) ≡ length m
unfolding overlay
length-overlay (b ∷ tb) (c ∷ m) = ap suc (length-overlay tb m)
length-overlay [] m = refl
length-overlay (b ∷ tb) [] = refl

-- Reading: the thread's own value first.
pub get_elem?-overlay :
    (tb : ThreadBuffer) (m : Storage) (a : ℕ) {b : AddressBuffer}
    → get_elem? tb a ≡ some b
    → length tb ≡ length m
    → get_elem? (overlay tb m) a ≡ elim (last b) [ some v ↦ some v | none ↦ get_elem? m a ]
unfolding overlay newest
get_elem?-overlay (b ∷ tb) (c ∷ m) zero e n = ground arith
get_elem?-overlay (b ∷ tb) (c ∷ m) (suc a) e n = get_elem?-overlay tb m a e (omega arith)
get_elem?-overlay [] m a e n = absurd (cc)
get_elem?-overlay (b ∷ tb) [] a e n = absurd (omega arith)

-- Buffering a store.
pub overlay-push :
    (tb : ThreadBuffer) (m : Storage) (a : ℕ) (b : AddressBuffer) (v : ℤ)
    → get_elem? tb a ≡ some b
    → overlay (set tb a (push b v)) m ≡ set (overlay tb m) a v
unfolding overlay
overlay-push (x ∷ tb) (c ∷ m) zero b v e = rw (newest-push b v c)
overlay-push (x ∷ tb) (c ∷ m) (suc a) b v e = ap (◌∷◌ (newest x c)) (overlay-push tb m a b v e)
overlay-push [] m a b v e = absurd (cc)
overlay-push (x ∷ tb) [] zero b v e = refl
overlay-push (x ∷ tb) [] (suc a) b v e = refl

-- The oldest store of a buffer reaches the storage.
pub overlay-propagate :
    (tb : ThreadBuffer) (m : Storage) (a : ℕ) (v : ℤ) (b : AddressBuffer)
    → get_elem? tb a ≡ some (v ∷ b)
    → overlay (set tb a b) (set m a v) ≡ overlay tb m
unfolding overlay
overlay-propagate (x ∷ tb) (c ∷ m) zero v b e = let q : x ≡ v ∷ b = cc in rw (q, newest-cons v b c)
overlay-propagate (x ∷ tb) (c ∷ m) (suc a) v b e =
    ap (◌∷◌ (newest x c)) (overlay-propagate tb m a v b e)
overlay-propagate [] m a v b e = absurd (cc)
overlay-propagate (x ∷ tb) [] zero v b e = refl
overlay-propagate (x ∷ tb) [] (suc a) v b e = refl

-- A direct write where nothing is buffered.
pub overlay-set :
    (tb : ThreadBuffer) (m : Storage) (a : ℕ) (v : ℤ)
    → get_elem? tb a ≡ some []
    → overlay tb (set m a v) ≡ set (overlay tb m) a v
unfolding overlay
overlay-set (x ∷ tb) (c ∷ m) zero v e = let q : x ≡ [] = cc in rw (q, newest-nil v)
overlay-set (x ∷ tb) (c ∷ m) (suc a) v e = ap (◌∷◌ (newest x c)) (overlay-set tb m a v e)
overlay-set [] m a v e = absurd (cc)
overlay-set (x ∷ tb) [] a v e = refl

pub overlay-replicate : (n : ℕ) (m : Storage) → overlay (replicate n []) m ≡ m
unfolding overlay
overlay-replicate zero m = refl
overlay-replicate (suc n) [] = refl
overlay-replicate (suc n) (c ∷ m) = rw (newest-nil c, overlay-replicate n m)

-- All of them reach the storage.
pub overlay-drain :
    (b : AddressBuffer) (tb : ThreadBuffer) (m : Storage) (a : ℕ)
    → get_elem? tb a ≡ some b
    → overlay (set tb a []) (drain a b m) ≡ overlay tb m
unfolding drain
overlay-drain [] tb m a e = rw (set-get_elem? tb a e)
overlay-drain (v ∷ b) tb m a e =
    let ih = overlay-drain b (set tb a b) (set m a v) a (get_elem?-set_self tb a b e) in
    rw (set-set tb a b []) at ih ∙ overlay-propagate tb m a v b e
