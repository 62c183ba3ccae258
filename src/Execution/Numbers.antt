-- ===== src/Execution/Numbers.antt =====
-- The numbers of the threads of a run, and the list of those that have not finished.
use weak_memory_models_mock.Base.{
  ℕ, zero, suc, ◌+◌, ◌≡◌, refl, sym, ap, ◌∙◌, false, some, ◌==◌, [], ◌∷◌, set, length, get_elem?,
  Bool-cases, inl, inr, arith, All, All-map,
}
use weak_memory_models_mock.Execution.Thread.{Thread, is_finished}
use weak_memory_models_mock.Execution.Threads.{
  ThreadManager, unfinished_threads, all_threads_completed,
}

-- The threads have the numbers from `k` on.
abbrev pub Numbered : ℕ → ThreadManager → Type 0
Numbered k [] = Unit
Numbered k (th ∷ threads) = (th.id ≡ k) × Numbered (suc k) threads

pub Numbered-get_elem? :
    (k : ℕ) (threads : ThreadManager) (i : ℕ) {th : Thread}
    → Numbered k threads
    → get_elem? threads i ≡ some th
    → th.id ≡ k + i
Numbered-get_elem? k [] i h e = absurd (cc)
Numbered-get_elem? k (x ∷ threads) zero {th} h e =
    let q : x ≡ th = cc in
    let p : x.id ≡ th.id = ap (λ (y : Thread). y.id) q in omega (arith, h.0, p)
Numbered-get_elem? k (x ∷ threads) (suc i) h e =
    let p = Numbered-get_elem? (suc k) threads i h.1 e in omega (arith, p)

pub Numbered-set :
    (k : ℕ) (threads : ThreadManager) (i : ℕ) {th : Thread} (th' : Thread)
    → Numbered k threads
    → get_elem? threads i ≡ some th
    → th'.id ≡ th.id
    → Numbered k (set threads i th')
Numbered-set k [] i th' h e f = tt
Numbered-set k (x ∷ threads) zero {th} th' h e f =
    let q : x ≡ th = cc in
    let p : x.id ≡ th.id = ap (λ (y : Thread). y.id) q in (f ∙ sym p ∙ h.0, h.1)
Numbered-set k (x ∷ threads) (suc i) th' h e f = (h.0, Numbered-set (suc k) threads i th' h.1 e f)

-- The number is that of a thread that has not finished.
abbrev pub Runnable : ℕ → ThreadManager → ℕ → Type 0
Runnable k threads t =
    (i : ℕ) × (th : Thread) × (t ≡ k + i)
    × (get_elem? threads i ≡ some th)
    × (is_finished th ≡ false)

pub unfinished_threads-Runnable :
    (k : ℕ) (threads : ThreadManager)
    → Numbered k threads
    → All (Runnable k threads) (unfinished_threads threads)
unfinished_threads-Runnable k [] h = tt
unfinished_threads-Runnable k (x ∷ threads) h =
    let later = λ (t : ℕ) (r : Runnable (suc k) threads t). shift t r in
    let rest : All (Runnable k (x ∷ threads)) (unfinished_threads threads) =
      All-map (Runnable (suc k) threads) (Runnable k (x ∷ threads)) (unfinished_threads threads)
        later (unfinished_threads-Runnable (suc k) threads h.1) in
    elim (Bool-cases (is_finished x)) [
      | inl e ↦ rw e rest
      | inr e ↦ rw e ((0, x, omega (arith, h.0), refl, e), rest)
    ]
  where
    shift : (t : ℕ) → Runnable (suc k) threads t → Runnable k (x ∷ threads) t
    shift t (i, th, p, q, e) = (suc i, th, omega (arith, p), q, e)

-- The list of unfinished threads is empty exactly if all have completed.
pub unfinished_threads_lem :
    (threads : ThreadManager)
    → all_threads_completed threads ≡ (length (unfinished_threads threads) == 0)
unfinished_threads_lem [] = refl
unfinished_threads_lem (x ∷ threads) = elim (Bool-cases (is_finished x)) [
  | inl e ↦ rw e (unfinished_threads_lem threads)
  | inr e ↦ rw e (ground arith)
]
