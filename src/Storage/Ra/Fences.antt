-- ===== src/Storage/Ra/Fences.antt =====
-- A sequentially consistent fence, and its clean-up of every location.
use weak_memory_models_mock.Base.{
  ℕ, suc, ◌<◌, ◌≡◌, refl, sym, ap, ◌∙◌, List, [], ◌∷◌, map, ok, ◌>>=◌, arith, length, some, subst,
  get_elem?, get_elem?-lt, All, All-get_elem?, indices, All-indices,
}
use weak_memory_models_mock.Storage.Ra.Timestamps.{Timestamps, View, join}
use weak_memory_models_mock.Storage.Ra.Messages.{History}
use weak_memory_models_mock.Storage.Ra.Order.{Under, Under-length, join-Under, ViewLe, join-ViewLe}
use weak_memory_models_mock.Storage.Ra.Invariant.{IsValid, clean_up_history_lem}
use weak_memory_models_mock.Storage.Ra.Safety.{Continues}
use weak_memory_models_mock.Storage.Ra.{Ra, clean_all, sc_fence}

module _ (ts : Timestamps) where
  open ts use {T, lt, next}

  clean_all_lem :
      (locations : List ℕ) (s : Ra ts)
      → IsValid ts s
      → 0 < length s.thread_views
      → All (λ l. l < length s.messages) locations
      → (s' : Ra ts) × (clean_all ts locations s ≡ ok s')
        × Continues ts s s'
        × (s'.thread_views ≡ s.thread_views)
  unfolding clean_all
  clean_all_lem [] s v h k = (s, refl, record { valid = v; threads = refl; locations = refl }, refl)
  clean_all_lem (l ∷ rest) s v h k =
      let (s₁, e, v₁, views, size, n) = clean_up_history_lem ts s l v h k.0 in
      let (s₂, f, c, same) = clean_all_lem rest s₁ v₁ (rw views h) (rw n k.1) in
      (
        s₂,
        rw (e, ◌>>=◌) f,
        record {
          valid = c.valid;
          threads = c.threads ∙ ap length views;
          locations = c.locations ∙ size;
        },
        same ∙ views,
      )

  map-All :
      (P : View ts → Type 0) (f : View ts → View ts) (xs : List (View ts))
      → ((x : View ts) → P x → P (f x))
      → All P xs
      → All P (map f xs)
  map-All P f [] g h = tt
  map-All P f (x ∷ xs) g h = (g x h.0, map-All P f xs g h.1)

  length-map : (f : View ts → View ts) (xs : List (View ts)) → length (map f xs) ≡ length xs
  length-map f [] = refl
  length-map f (x ∷ xs) = ap suc (length-map f xs)

  -- What a sequentially consistent fence does with the views.
  pub record Fenced (s : Ra ts) (t : ℕ) : Type 0 where
    pub view : View ts
    pub result : Ra ts
    pub view_at : get_elem? s.thread_views t ≡ some view
    pub returns : sc_fence ts s t ≡ ok result
    pub continues : Continues ts s result
    pub views : result.thread_views ≡ map (λ v. join ts v view) s.thread_views

  pub sc_fence_lem : (s : Ra ts) (t : ℕ) → IsValid ts s → t < length s.thread_views → Fenced s t
  unfolding sc_fence
  sc_fence_lem s t v h =
      let (w, e) = get_elem?-lt s.thread_views t h in
      let f = λ (x : View ts). join ts x w in
      let views = map f s.thread_views in
      let n = length-map f s.thread_views in
      let up = All-get_elem? (λ v. Under ts v s.messages) s.thread_views t v.threads e in
      let v' : IsValid ts (record s { thread_views = views }) = record {
        bases = v.bases ∙ sym n;
        size = v.size;
        threads =
            map-All (λ v. Under ts v s.messages) f s.thread_views
              (λ x u. join-Under ts x w s.messages u up) v.threads;
        base = v.base;
        logs = v.logs;
      } in
      let (s', q, c, same) =
        clean_all_lem (indices 0 (suc s.storage_size)) (record s { thread_views = views }) v'
          (omega (arith, n, h))
          (All-indices 0 (suc s.storage_size) (length s.messages) (omega (arith, v.size))) in
      record {
        view = w;
        result = s';
        view_at = e;
        returns = rw (e, q);
        continues = record { valid = c.valid; threads = c.threads ∙ n; locations = c.locations };
        views = same;
      }

  join_each :
      (w : View ts) (hs : List (History ts)) (views : List (View ts))
      → Under ts w hs
      → All (λ v. Under ts v hs) views
      → All (ViewLe ts w) (map (λ v. join ts v w) views)
  join_each w hs [] up all = tt
  join_each w hs (v ∷ views) up all = (
    (join-ViewLe ts v w (Under-length ts v hs all.0 ∙ sym (Under-length ts w hs up))).1,
    join_each w hs views up all.1,
  )

  -- In a valid state a sequentially consistent fence returns, into a valid state, and after it no
  -- thread's view is at any location behind the view that the fencing thread had.
  pub sc_fence-Publishes :
      (s : Ra ts) (t : ℕ)
      → IsValid ts s
      → t < length s.thread_views
      → (view : View ts) × (s' : Ra ts) × (get_elem? s.thread_views t ≡ some view)
        × (sc_fence ts s t ≡ ok s')
        × IsValid ts s'
        × All (ViewLe ts view) s'.thread_views
  sc_fence-Publishes s t v h =
      let r = sc_fence_lem s t v h in
      (
        r.view,
        r.result,
        r.view_at,
        r.returns,
        r.continues.valid,
        subst (All (ViewLe ts r.view)) (sym r.views) (
            join_each r.view s.messages s.thread_views
              (All-get_elem? (λ v. Under ts v s.messages) s.thread_views t v.threads r.view_at)
              v.threads),
      )
