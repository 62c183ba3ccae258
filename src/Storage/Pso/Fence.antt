-- ===== src/Storage/Pso/Fence.antt =====
-- What a fence and an atomic operation flush under PSO.
use weak_memory_models_mock.Base.{
  ℕ, zero, suc, ◌<◌, ◌≡◌, refl, sym, ap, ◌∙◌, some, List, [], ◌∷◌, arith, length, set, get_elem?,
  get_elem?-set_self, get_elem?-lt, length-set, All, All-get_elem?, ok, ◌>>=◌, indices, replicate,
  set-get_elem?, set-set, All-indices,
}
use weak_memory_models_mock.Storage.AccessMode.{AccessMode}
use weak_memory_models_mock.Storage.Pso.Buffers.{ThreadBuffer, AddressBuffer}
use weak_memory_models_mock.Storage.Pso.Overlay.{
  overlay, overlay-replicate, overlay-drain, length-drain,
}
use weak_memory_models_mock.Storage.Pso.{Pso, flush_all, fence, logged}
use weak_memory_models_mock.Storage.Logger.{Entry}
use weak_memory_models_mock.Storage.Pso.Flush.{IsValid, flushed, flush_buffer-address}

-- The buffers `from, from + 1, …` emptied.
unfoldable pub clear : List ℕ → ThreadBuffer → ThreadBuffer
clear [] tb = tb
clear (a ∷ rest) tb = clear rest (set tb a [])

clear-shift :
    (from n : ℕ) (b : AddressBuffer) (tb : ThreadBuffer)
    → clear (indices (suc from) n) (b ∷ tb) ≡ b ∷ clear (indices from n) tb
unfolding clear
clear-shift from zero b tb = refl
clear-shift from (suc n) b tb = clear-shift (suc from) n b (set tb from [])

pub clear-all : (tb : ThreadBuffer) → clear (indices 0 (length tb)) tb ≡ replicate (length tb) []
unfolding clear
clear-all [] = refl
clear-all (b ∷ tb) = clear-shift 0 (length tb) [] tb ∙ ap (◌∷◌ []) (clear-all tb)

-- What stays the same of the thread's view while its buffers are emptied one by one.
flush_all_lem :
    (addresses : List ℕ) (s : Pso) (t : ℕ) (tb : ThreadBuffer)
    → get_elem? s.thread_buffers t ≡ some tb
    → length tb ≡ length s.storage
    → All (λ a. a < length s.storage) addresses
    → (s' : Pso) × (flush_all addresses s t ≡ ok s')
      × (overlay (clear addresses tb) s'.storage ≡ overlay tb s.storage)
      × (s'.thread_buffers ≡ set s.thread_buffers t (clear addresses tb))
unfolding flush_all clear flushed
flush_all_lem [] s t tb here wide h = (s, refl, refl, sym (set-get_elem? s.thread_buffers t here))
flush_all_lem (a ∷ rest) s t tb here wide h =
    let (b, e) = get_elem?-lt tb a (omega (arith, h.0, wide)) in
    let n = length-drain a b s.storage in
    let (s', q, view, buffers) =
      flush_all_lem rest (flushed s t a tb b) t (set tb a [])
        (get_elem?-set_self s.thread_buffers t (set tb a []) here)
        (length-set tb a [] ∙ wide ∙ sym n) (rw n h.1) in
    (
      s',
      rw (flush_buffer-address s t a tb b here e h.0, ◌>>=◌) q,
      view ∙ overlay-drain b tb s.storage a e,
      buffers ∙ set-set s.thread_buffers t (set tb a []) (clear rest (set tb a [])),
    )

-- A fence always succeeds in a valid state. After it the storage is what the thread saw before it,
-- the thread has nothing buffered for any address, and no other thread's buffers have changed.
pub fence-flushes :
    (s : Pso) (t : ℕ) (o : AccessMode) (tb : ThreadBuffer)
    → IsValid s
    → get_elem? s.thread_buffers t ≡ some tb
    → (s' : Pso) × (fence s t o ≡ ok s')
      × (s'.storage ≡ overlay tb s.storage)
      × (s'.thread_buffers ≡ set s.thread_buffers t (replicate (length s.storage) []))
unfolding fence
fence-flushes s t o tb v here =
    let n = length s.storage in
    let wide : length tb ≡ n =
      All-get_elem? (λ x. length x ≡ length s.storage) s.thread_buffers t v here in
    let cleared : clear (indices 0 n) tb ≡ replicate n [] = rw wide at (clear-all tb) in
    let (s', q, view, buffers) =
      flush_all_lem (indices 0 n) s t tb here wide (All-indices 0 n n (omega arith)) in
    (
      logged s' (Entry.fence t o),
      rw q,
      sym (overlay-replicate n s'.storage) ∙ (rw cleared at view),
      rw cleared at buffers,
    )
