-- ===== src/Storage/Ra/Calls.antt =====
-- A call of a memory operation of the release-acquire manager, by a thread that exists and to a
-- location that exists.
use weak_memory_models_mock.Base.{
  ℕ, suc, ◌<◌, ◌≡◌, refl, ◌∙◌, Bool, true, false, Option, some, ℤ, pos, ◌==ℤ◌, add32,
  add32-OnlyOverflows, List, [], ◌∷◌, ok, err, Result, Fault, ◌>>=◌, arith, inl, inr, length,
  Bool-cases, Result-cases, Ends, >>=-Ends, Ends-map, ◌||◌, not,
}
use weak_memory_models_mock.Storage.AccessMode.{AccessMode}
use weak_memory_models_mock.Storage.Logger.{Log, Entry}
use weak_memory_models_mock.Storage.Manager.{Operation, perform, silent, thread_of, Addresses}
use weak_memory_models_mock.Storage.Ra.Timestamps.{Timestamps, middle_timestamp}
use weak_memory_models_mock.Storage.Ra.Messages.{Message, back}
use weak_memory_models_mock.Storage.Ra.Invariant.{IsValid}
use weak_memory_models_mock.Storage.Ra.Safety.{Chooses, Continues, available_messages_lem}
use weak_memory_models_mock.Storage.Ra.{
  Ra, UpdateManager, Choice, Model, ra, sra, available_messages, read, min_possible, new_timestamp,
  release_views, write_message, write, clean_all, sc_fence, ra_fence, read_if, write_if, load,
  store, compare_and_swap, fetch_and_increment, fence, is_release, is_acquire, is_sc,
}
use weak_memory_models_mock.Storage.Ra.Reads.{Reads, read-Reads}
use weak_memory_models_mock.Storage.Ra.Writes.{write_message_lem}
use weak_memory_models_mock.Storage.Ra.Fences.{sc_fence_lem}
use weak_memory_models_mock.Storage.Ra

module _ (ts : Timestamps) where
  open ts use {T, lt, next}

  pub Continues-trans : (r s t : Ra ts) → Continues ts r s → Continues ts s t → Continues ts r t
  Continues-trans r s t a b = record {
    valid = b.valid;
    threads = b.threads ∙ a.threads;
    locations = b.locations ∙ a.locations;
  }

  pub relog : (s : Ra ts) (l : Log) → IsValid ts s → Continues ts s (record s { log = l })
  relog s l v = record {
    valid = record {
      bases = v.bases;
      size = v.size;
      threads = v.threads;
      base = v.base;
      logs = v.logs;
    };
    threads = refl;
    locations = refl;
  }

  pub middle_timestamp_lem : (a b : T) → Ends (λ (t : T). Unit) (middle_timestamp ts a b)
  unfolding middle_timestamp
  middle_timestamp_lem a b = elim (Bool-cases (lt a b)) [
    | inr e ↦ rw e tt
    | inl e ↦ elim (Bool-cases (not (lt a (ts.middle a b)) || not (lt (ts.middle a b) b))) [
      | inl f ↦ rw (e, f) tt
      | inr f ↦ rw (e, f) tt
    ]
  ]

  pub back_lem :
      (m : Message ts) (ms : List (Message ts)) → (x : Message ts) × (back ts (m ∷ ms) ≡ ok x)
  unfolding back
  back_lem m [] = (m, refl)
  back_lem m (n ∷ ms) = back_lem n ms

  module _ {M : Type 0} (u : UpdateManager ts M) (spec : Chooses ts u) where
    read_lem :
        (k : M) (s : Ra ts) (t location : ℕ) (b c : Bool)
        → IsValid ts s
        → t < length s.thread_views
        → location < length s.messages
        → Ends (λ (r : ℤ × M × Ra ts). Continues ts s r.2) (read ts u k s t location b c)
    read_lem k s t location b c v ht hl =
        Ends-map (λ (r : ℤ × M × Ra ts). Reads ts s t location b r.0 r.2) _
          (read ts u k s t location b c) (λ r d. d.continues)
          (read-Reads ts u spec k s t location b c v ht hl)

    new_timestamp_lem :
        (k : M) (model : Model) (m : Message ts) (ms : List (Message ts)) (use_min : Bool)
        → Ends (λ (r : T × M). Unit) (new_timestamp ts u k model (m ∷ ms) use_min)
    unfolding new_timestamp min_possible
    new_timestamp_lem k model m ms use_min =
        >>=-Ends (λ x. Unit) _ (min_possible ts (m ∷ ms)) _ (least ms)
          (λ x _. choose model use_min x)
      where
        least : (ms : List (Message ts)) → Ends (λ (t : T). Unit) (min_possible ts (m ∷ ms))
        least [] = tt
        least (n ∷ ms) = middle_timestamp_lem m.timestamp n.timestamp

        choose :
            (model : Model) (use_min : Bool) (x : T)
            → Ends
                (λ (r : T × M). Unit)
                (elim model [
                  | sra ↦ back ts (m ∷ ms) >>= λ x. ok (next x.timestamp, k)
                  | ra ↦ elim use_min [
                    | true ↦ ok (x, k)
                    | false ↦ u.choose_new_timestamp k (m ∷ ms)
                  ]
                ])
        choose sra use_min x = let (y, e) = back_lem m ms in rw e tt
        choose ra true x = tt
        choose ra false x = spec.timestamp k m ms

    pub write_lem :
        (k : M) (s : Ra ts) (t location : ℕ) (value : ℤ) (b c : Bool)
        → IsValid ts s
        → t < length s.thread_views
        → location < length s.messages
        → Ends (λ (r : M × Ra ts). Continues ts s r.1) (write ts u k s t location value b c)
    unfolding write
    write_lem k s t location value b c v ht hl =
        let o = available_messages_lem ts s t location v ht hl in
        rw o.available (
          >>=-Ends (λ r. Unit) _ (new_timestamp ts u k s.model (o.first ∷ o.others) b) _
            (new_timestamp_lem k s.model o.first o.others b)
            (λ new _.
              let r = write_message_lem ts s t location value c new.0 v ht hl in
              rw r.returns r.continues))

    write_after :
        (s : Ra ts) (k : M) (s₁ : Ra ts) (t location : ℕ) (value : ℤ) (b c : Bool)
        → Continues ts s s₁
        → t < length s.thread_views
        → location < suc s.storage_size
        → Ends (λ (r : M × Ra ts). Continues ts s r.1) (write ts u k s₁ t location value b c)
    write_after s k s₁ t location value b c here ht hl =
        Ends-map (λ (r : M × Ra ts). Continues ts s₁ r.1) _ (write ts u k s₁ t location value b c)
          (λ r d. Continues-trans s s₁ r.1 here d)
          (write_lem k s₁ t location value b c here.valid (omega (arith, here.threads, ht))
            (omega (arith, here.valid.size, here.locations, hl)))

    load_lem :
        (k : M) (s : Ra ts) (t a : ℕ) (o : AccessMode)
        → IsValid ts s
        → t < length s.thread_views
        → a < length s.messages
        → Ends (λ (r : ℤ × M × Ra ts). Continues ts s r.2) (load ts u k s t a o)
    unfolding load
    load_lem k s t a o v ht ha =
        >>=-Ends _ _ (read ts u k s t a (is_acquire o) false) _
          (read_lem k s t a (is_acquire o) false v ht ha)
          (λ r c. Continues-trans s r.2 _ c (relog r.2 _ c.valid))

    store_lem :
        (k : M) (s : Ra ts) (t a : ℕ) (x : ℤ) (o : AccessMode)
        → IsValid ts s
        → t < length s.thread_views
        → a < suc s.storage_size
        → Ends (λ (r : M × Ra ts). Continues ts s r.1) (store ts u k s t a x o)
    unfolding store
    store_lem k s t a x o v ht ha =
        write_after s k _ t a x false (is_release o) (relog s (Entry.store t a x o ∷ s.log) v) ht ha

    write_if_lem :
        (b : Bool) (s : Ra ts) (k : M) (s₁ : Ra ts) (t a : ℕ) (x : ℤ) (c : Bool)
        → Continues ts s s₁
        → t < length s.thread_views
        → a < suc s.storage_size
        → Ends (λ (r : M × Ra ts). Continues ts s r.1) (write_if ts u b k s₁ t a x c)
    write_if_lem true s k s₁ t a x c here ht ha = write_after s k s₁ t a x true c here ht ha
    write_if_lem false s k s₁ t a x c here ht ha = here

    compare_and_swap_lem :
        (k : M) (s : Ra ts) (t a : ℕ) (x y : ℤ) (o : AccessMode)
        → IsValid ts s
        → t < length s.thread_views
        → a < suc s.storage_size
        → Ends (λ (r : M × Ra ts). Continues ts s r.1) (compare_and_swap ts u k s t a x y o)
    unfolding compare_and_swap
    compare_and_swap_lem k s t a x y o v ht ha =
        >>=-Ends _ _ (read ts u k s t a (is_acquire o) true) _
          (read_lem k s t a (is_acquire o) true v ht (omega (arith, v.size, ha)))
          (λ r c.
            >>=-Ends _ _ (write_if ts u (r.0 ==ℤ x) r.1 r.2 t a y (is_release o)) _
              (write_if_lem (r.0 ==ℤ x) s r.1 r.2 t a y (is_release o) c ht ha)
              (λ w d. Continues-trans s w.1 _ d (relog w.1 _ d.valid)))

    fetch_and_increment_lem :
        (k : M) (s : Ra ts) (t a : ℕ) (i : ℤ) (o : AccessMode)
        → IsValid ts s
        → t < length s.thread_views
        → a < suc s.storage_size
        → Ends (λ (r : M × Ra ts). Continues ts s r.1) (fetch_and_increment ts u k s t a i o)
    unfolding fetch_and_increment
    fetch_and_increment_lem k s t a i o v ht ha =
        >>=-Ends _ _ (read ts u k s t a (is_acquire o) true) _
          (read_lem k s t a (is_acquire o) true v ht (omega (arith, v.size, ha)))
          (λ r c.
            >>=-Ends (λ x. Unit) _ (add32 r.0 i) _ (sum r.0)
              (λ x _.
                >>=-Ends _ _ (write ts u r.1 r.2 t a x true (is_release o)) _
                  (write_after s r.1 r.2 t a x true (is_release o) c ht ha)
                  (λ w d. Continues-trans s w.1 _ d (relog w.1 _ d.valid))))
      where
        sum : (x : ℤ) → Ends (λ (y : ℤ). Unit) (add32 x i)
        sum x = elim (Result-cases (add32 x i)) [
          | inl (y, e) ↦ rw e tt
          | inr (f, e) ↦
              let h = add32-OnlyOverflows x i in
              let q : f ≡ Fault.overflow = (rw e at h) in rw (e, q) tt
        ]

    read_if_lem :
        (b : Bool) (k : M) (s : Ra ts) (t a : ℕ) (c : Bool)
        → IsValid ts s
        → t < length s.thread_views
        → a < length s.messages
        → Ends (λ (r : M × Ra ts). Continues ts s r.1) (read_if ts u b k s t a c)
    read_if_lem true k s t a c v ht ha =
        >>=-Ends _ _ (read ts u k s t a true c) _ (read_lem k s t a true c v ht ha) (λ r d. d)
    read_if_lem false k s t a c v ht ha = record { valid = v; threads = refl; locations = refl }

    ra_fence_lem :
        (k : M) (s : Ra ts) (t : ℕ) (o : AccessMode)
        → IsValid ts s
        → t < length s.thread_views
        → Ends (λ (r : M × Ra ts). Continues ts s r.1) (ra_fence ts u k s t o)
    unfolding ra_fence
    ra_fence_lem k s t o v ht =
        >>=-Ends _ _ (read_if ts u (is_acquire o) k s t s.storage_size (is_release o)) _
          (read_if_lem (is_acquire o) k s t s.storage_size (is_release o) v ht
            (omega (arith, v.size)))
          (λ r c. rest r c)
      where
        rest :
            (r : M × Ra ts)
            → Continues ts s r.1
            → Ends
                (λ (r : M × Ra ts). Continues ts s r.1)
                (write ts u r.0 r.1 t s.storage_size (pos 0) true (is_release o))
        rest r c =
            write_after s r.0 r.1 t s.storage_size (pos 0) true (is_release o) c ht (omega arith)

    fence_lem :
        (k : M) (s : Ra ts) (t : ℕ) (o : AccessMode)
        → IsValid ts s
        → t < length s.thread_views
        → Ends (λ (r : M × Ra ts). Continues ts s r.1) (fence ts u k s t o)
    unfolding fence
    fence_lem k s t o v ht =
        let s₁ : Ra ts = record s { log = Entry.fence t o ∷ s.log } in
        let c = relog s (Entry.fence t o ∷ s.log) v in
        elim (Bool-cases (is_sc o)) [
          | inl e ↦
              let r = sc_fence_lem ts s₁ t c.valid ht in
              rw (e, r.returns) (Continues-trans s s₁ r.result c r.continues)
          | inr e ↦ rw e (
              Ends-map (λ (r : M × Ra ts). Continues ts s₁ r.1) _ (ra_fence ts u k s₁ t o)
                (λ r d. Continues-trans s s₁ r.1 c d) (ra_fence_lem k s₁ t o c.valid ht))
        ]

    silent_lem :
        (s : Ra ts) (r : Result (M × Ra ts))
        → Ends (λ (q : M × Ra ts). Continues ts s q.1) r
        → Ends (λ (q : Option ℤ × (M × Ra ts)). Continues ts s q.1.1) (silent r)
    silent_lem s (ok a) c = c
    silent_lem s (err e) c = c

    load-silent :
        (s : Ra ts) (r : Result (ℤ × M × Ra ts))
        → Ends (λ (q : ℤ × M × Ra ts). Continues ts s q.2) r
        → Ends
            (λ (q : Option ℤ × (M × Ra ts)). Continues ts s q.1.1)
            (◌>>=◌ {V = ℤ × (M × Ra ts)}
              (r >>= λ q. ok (q.0, (q.1, q.2)))
              (λ q. ok (some q.0, q.1)))
    load-silent s (ok a) c = c
    load-silent s (err e) c = c

    -- In a valid state every call by an existing thread to an existing location, the additional one
    -- included, leaves a valid state of the same size, or ends at one of the expected faults. So an
    -- available message is always found, the clean-up stops inside each log, and no container is
    -- read outside its bounds. The update manager chooses among the messages that it is offered.
    pub call-IsSafe :
        (op : Operation) (k : M) (s : Ra ts)
        → IsValid ts s
        → thread_of op < length s.thread_views
        → Addresses (suc s.storage_size) op
        → Ends
            (λ (r : Option ℤ × (M × Ra ts)). Continues ts s r.1.1)
            (perform (Ra.manager ts u) op (k, s))
    call-IsSafe (Operation.load t a o) k s v ht ha =
        load-silent s (load ts u k s t a o) (load_lem k s t a o v ht (omega (arith, v.size, ha)))
    call-IsSafe (Operation.store t a x o) k s v ht ha =
        silent_lem s (store ts u k s t a x o) (store_lem k s t a x o v ht ha)
    call-IsSafe (Operation.compare_and_swap t a x y o) k s v ht ha =
        silent_lem s (compare_and_swap ts u k s t a x y o)
          (compare_and_swap_lem k s t a x y o v ht ha)
    call-IsSafe (Operation.fetch_and_increment t a i o) k s v ht ha =
        silent_lem s (fetch_and_increment ts u k s t a i o)
          (fetch_and_increment_lem k s t a i o v ht ha)
    call-IsSafe (Operation.fence t o) k s v ht ha =
        silent_lem s (fence ts u k s t o) (fence_lem k s t o v ht)
