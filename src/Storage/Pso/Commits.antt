-- ===== src/Storage/Pso/Commits.antt =====
-- The loop of `fence` under PSO, as steps of the abstract machine.
use weak_memory_models_mock.Base.{
  ℕ, zero, suc, ◌+◌, ◌≤◌, ◌<◌, ◌≡◌, ◌≢◌, refl, sym, ◌∙◌, Option, none, some, List, [], ◌++◌, arith,
  length, set, set-set, set-get_elem?, get_elem?, get_elem?-set_self, get_elem?-set_ne,
  get_elem?-lt, length-set, All, All-replicate, ok, ◌>>=◌, indices,
}
use weak_memory_models_mock.Storage.Pso.Buffers.{ThreadBuffer, AddressBuffer}
use weak_memory_models_mock.Storage.Pso.Overlay.{length-drain}
use weak_memory_models_mock.Storage.Pso.{Pso, flush_all}
use weak_memory_models_mock.Storage.Pso.Flush.{flushed, flush_buffer-address}
use weak_memory_models_mock.Storage.Pso.Fence.{clear, clear-all}
use weak_memory_models_mock.Storage.Pso.Machine.{
  view, Label, Steps, stop, Steps-append, commits_of, flushed-Steps,
}

-- The commits of the queues of `count` addresses from `from` on, one queue after the other.
abbrev pub queue_commits : ℕ → ℕ → Option AddressBuffer → List Label
queue_commits t a none = []
queue_commits t a (some queue) = commits_of t a queue

abbrev pub commits_from : ℕ → ThreadBuffer → ℕ → ℕ → List Label
commits_from t tb from zero = []
commits_from t tb from (suc count) =
    queue_commits t from (get_elem? tb from) ++ commits_from t tb (suc from) count

-- A queue below these addresses does not matter.
commits_from-set :
    (t : ℕ) (tb : ThreadBuffer) (a from count : ℕ)
    → a < from
    → commits_from t (set tb a []) from count ≡ commits_from t tb from count
commits_from-set t tb a from zero h = refl
commits_from-set t tb a from (suc count) h =
    let apart : a ≢ from = λ e. absurd (omega (arith, e, h)) in
    rw (get_elem?-set_ne tb a from [] apart, commits_from-set t tb a (suc from) count (omega arith))

pub flush_all-Steps :
    (count from : ℕ) (s : Pso) (t : ℕ) (tb : ThreadBuffer)
    → get_elem? s.thread_buffers t ≡ some tb
    → length tb ≡ length s.storage
    → from + count ≤ length s.storage
    → (s' : Pso) × (flush_all (indices from count) s t ≡ ok s')
      × Steps (view s) (commits_from t tb from count) (view s')
      × (s'.thread_buffers ≡ set s.thread_buffers t (clear (indices from count) tb))
unfolding flush_all clear flushed
flush_all-Steps zero from s t tb here wide h =
    (s, refl, stop, sym (set-get_elem? s.thread_buffers t here))
flush_all-Steps (suc count) from s t tb here wide h =
    let (b, e) = get_elem?-lt tb from (omega (arith, h, wide)) in
    let n = length-drain from b s.storage in
    let (s', q, steps, buffers) =
      flush_all-Steps count (suc from) (flushed s t from tb b) t (set tb from [])
        (get_elem?-set_self s.thread_buffers t (set tb from []) here)
        (length-set tb from [] ∙ wide ∙ sym n) (rw n (omega arith)) in
    (
      s',
      rw (flush_buffer-address s t from tb b here e (omega arith), ◌>>=◌) q,
      rw e (
          Steps-append (flushed-Steps s t from tb b here e)
            (rw (commits_from-set t tb from (suc from) count (omega arith)) at steps)),
      buffers
          ∙ set-set s.thread_buffers t (set tb from [])
              (clear (indices (suc from) count) (set tb from [])),
    )

-- All queues of a thread, from the first address to the last.
abbrev pub all_commits : ℕ → ThreadBuffer → List Label
all_commits t tb = commits_from t tb 0 (length tb)

pub clear-Empty : (tb : ThreadBuffer) → All (λ queue. queue ≡ []) (clear (indices 0 (length tb)) tb)
clear-Empty tb = rw (clear-all tb) (All-replicate (λ queue. queue ≡ []) (length tb) [] refl)
