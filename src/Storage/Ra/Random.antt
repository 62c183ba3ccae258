-- ===== src/Storage/Ra/Random.antt =====
-- The choices of the random and of the interactive update manager.
use weak_memory_models_mock.Base.{
  ℕ, suc, ◌+◌, ◌-◌, ◌≤◌, ◌<◌, ◌≡◌, refl, ap, Bool, true, false, not, Option, none, some, List, [],
  ◌∷◌, ok, err, Fault, arith, inl, inr, length, get_elem?, get_elem?-lt, leb, ◌==◌, Bool-cases, All,
  All-get_elem?, Ends, >>=-Ends,
}
use weak_memory_models_mock.Storage.Ra.Timestamps.{Timestamps}
use weak_memory_models_mock.Storage.Ra.Messages.{
  Message, count_unused, filter_unused, find_pos, find_from,
}
use weak_memory_models_mock.Storage.Ra.Calls.{middle_timestamp_lem, back_lem}
use weak_memory_models_mock.Storage.Ra.Safety.{Chooses}
use weak_memory_models_mock.Storage.Ra.{Choice, index}
use weak_memory_models_mock.Storage.Ra.Updates.{
  Uniform, Console, distribution, random, interactive, choose_unused, choose_any,
  random_choose_message, after_position, random_choose_new_timestamp, ask_message, offered,
  interactive_choose, interactive_timestamp,
}

module _ (ts : Timestamps) where
  open ts use {T, next}

  distribution_lem :
      (un : Uniform) (g : un.Generator) (a b : ℕ)
      → Ends (λ (r : ℕ × un.Generator). (a ≤ r.0) × (r.0 ≤ b)) (distribution ts un g a b)
  unfolding distribution
  distribution_lem un g a b = elim (Bool-cases (leb a b)) [
    | inl e ↦ rw e (un.draw_in_range g a b (ground (arith, e)))
    | inr e ↦ rw e tt
  ]

  -- The search from position `i` after `count` messages finds the position of an unused message.
  find_from_lem :
      (n count i : ℕ) (ms : List (Message ts))
      → count < n
      → n ≤ count + count_unused ts ms
      → (p : ℕ) × (find_from ts n count i ms ≡ ok (i + p)) × (p < length ms)
  unfolding count_unused find_from
  find_from_lem n count i [] h k = absurd (omega arith)
  find_from_lem n count i (m ∷ ms) h k = elim (Bool-cases m.is_used_by_atomic_update) [
    | inl e ↦ let k' = rw e at k in skip e (find_from_lem n count (suc i) ms h (omega (arith, k')))
    | inr e ↦ elim (Bool-cases (suc count == n)) [
      | inl f ↦ (0, rw (e, f) (ap ok (omega arith)), omega arith)
      | inr f ↦
          let k' = rw e at k in
          on e f (find_from_lem n (suc count) (suc i) ms (ground (arith, f, h)) (omega (arith, k')))
    ]
  ]
    where
      skip :
          m.is_used_by_atomic_update ≡ true
          → (p : ℕ) × (find_from ts n count (suc i) ms ≡ ok (suc i + p)) × (p < length ms)
          → (p : ℕ) × (find_from ts n count i (m ∷ ms) ≡ ok (i + p)) × (p < suc (length ms))
      skip e (p, q, l) = (suc p, rw (e, q) (ap ok (omega arith)), omega arith)

      on :
          m.is_used_by_atomic_update ≡ false
          → (suc count == n) ≡ false
          → (p : ℕ) × (find_from ts n (suc count) (suc i) ms ≡ ok (suc i + p)) × (p < length ms)
          → (p : ℕ) × (find_from ts n count i (m ∷ ms) ≡ ok (i + p)) × (p < suc (length ms))
      on e f (p, q, l) = (suc p, rw (e, f, q) (ap ok (omega arith)), omega arith)

  index_lem :
      (P : Message ts → Type 0) (ms : List (Message ts)) (i : ℕ)
      → i < length ms
      → All P ms
      → Ends P (index ms i)
  index_lem P ms i h all = let (m, e) = get_elem?-lt ms i h in rw e (All-get_elem? P ms i all e)

  module _ (un : Uniform) where
    choose_unused_lem :
        (P : Message ts → Type 0) (g : un.Generator) (ms : List (Message ts))
        → ((x : Message ts) → P x → P (record x { is_used_by_atomic_update = true }))
        → All P ms
        → Ends (λ (c : Choice ts × un.Generator). P c.0.message) (choose_unused ts un g ms)
    unfolding choose_unused find_pos
    choose_unused_lem P g ms keep all =
        >>=-Ends _ _ (distribution ts un g 1 (count_unused ts ms)) _
          (distribution_lem un g 1 (count_unused ts ms))
          (λ pos r.
            let (p, q, l) = find_from_lem pos.0 0 0 ms (omega (arith, r.0)) (omega (arith, r.1)) in
            rw q (
              >>=-Ends P _ (index ms (0 + p)) _ (index_lem P ms (0 + p) (omega arith) all)
                (λ m h. keep m h)))

    choose_any_lem :
        (P : Message ts → Type 0) (g : un.Generator) (m : Message ts) (ms : List (Message ts))
        → All P (m ∷ ms)
        → Ends (λ (c : Choice ts × un.Generator). P c.0.message) (choose_any ts un g (m ∷ ms))
    unfolding choose_any
    choose_any_lem P g m ms all =
        >>=-Ends _ _ (distribution ts un g 0 (length (m ∷ ms) - 1)) _
          (distribution_lem un g 0 (length (m ∷ ms) - 1))
          (λ pos r.
            >>=-Ends P _ (index (m ∷ ms) pos.0) _
              (index_lem P (m ∷ ms) pos.0 (omega (arith, r.1)) all) (λ m h. h))

    after_position_lem :
        (m : Message ts) (ms : List (Message ts)) (i : ℕ)
        → i < length (m ∷ ms)
        → Ends (λ (t : T). Unit) (after_position ts un (m ∷ ms) i)
    unfolding after_position
    after_position_lem m ms i h = elim (Bool-cases (i == length (m ∷ ms) - 1)) [
      | inl e ↦ let (x, f) = back_lem ts m ms in rw (e, f) tt
      | inr e ↦
          let (x, f) = get_elem?-lt (m ∷ ms) i h in
          let (y, g) = get_elem?-lt (m ∷ ms) (suc i) (ground (arith, e, h)) in
          rw (e, f, g) (middle_timestamp_lem ts x.timestamp y.timestamp)
    ]

    -- The random update manager chooses one of the messages that it is offered, and it looks only
    -- at positions where there is one.
    pub random-Chooses : Chooses ts (random ts un)
    unfolding random random_choose_message random_choose_new_timestamp find_pos
    random-Chooses = record {
      message = λ P g m ms b keep all. go P g m ms b keep all;
      timestamp = λ g m ms.
          >>=-Ends _ _ (distribution ts un g 1 (count_unused ts (m ∷ ms))) _
            (distribution_lem un g 1 (count_unused ts (m ∷ ms)))
            (λ pos r.
              let (p, q, l) =
                find_from_lem pos.0 0 0 (m ∷ ms) (omega (arith, r.0)) (omega (arith, r.1)) in
              rw q (
                >>=-Ends _ _ (after_position ts un (m ∷ ms) (0 + p)) _
                  (after_position_lem m ms (0 + p) (omega arith)) (λ t _. tt)));
    }
      where
        go :
            (P : Message ts → Type 0) (g : un.Generator) (m : Message ts) (ms : List (Message ts))
            (b : Bool)
            → ((x : Message ts) → P x → P (record x { is_used_by_atomic_update = true }))
            → All P (m ∷ ms)
            → Ends
                (λ (c : Choice ts × un.Generator). P c.0.message)
                (random_choose_message ts un g (m ∷ ms) b)
        go P g m ms true keep all = choose_unused_lem P g (m ∷ ms) keep all
        go P g m ms false keep all = choose_any_lem P g m ms all

  module _ (con : Console T) where
    filter_unused-All :
        (P : Message ts → Type 0) (ms : List (Message ts)) → All P ms → All P (filter_unused ts ms)
    unfolding filter_unused
    filter_unused-All P [] all = tt
    filter_unused-All P (m ∷ ms) all = elim (Bool-cases (not m.is_used_by_atomic_update)) [
      | inl e ↦ rw e (all.0, filter_unused-All P ms all.1)
      | inr e ↦ rw e (filter_unused-All P ms all.1)
    ]

    ask_message_lem :
        (P : Message ts → Type 0) (ms : List (Message ts)) (input : List con.Token)
        → All P ms
        → Ends (λ (r : Message ts × List con.Token). P r.0) (ask_message ts con ms input)
    unfolding ask_message
    ask_message_lem P ms [] all = tt
    ask_message_lem P ms (token ∷ input) all =
        step (ask_message_lem P ms input all) (con.as_size token)
      where
        step :
            Ends (λ (r : Message ts × List con.Token). P r.0) (ask_message ts con ms input)
            → (o : Option ℕ)
            → Ends
                (λ (r : Message ts × List con.Token). P r.0)
                (elim o [
                  | none ↦ err Fault.end_of_input
                  | some i ↦ elim (get_elem? ms i) [
                    | none ↦ ask_message ts con ms input
                    | some m ↦ ok (m, input)
                  ]
                ])
        step again none = tt
        step again (some i) = found (get_elem? ms i) refl
          where
            found :
                (o : Option (Message ts))
                → get_elem? ms i ≡ o
                → Ends
                    (λ (r : Message ts × List con.Token). P r.0)
                    (elim o [ none ↦ ask_message ts con ms input | some m ↦ ok (m, input) ])
            found none e = again
            found (some m) e = All-get_elem? P ms i all e

    interactive_choose_lem :
        (P : Message ts → Type 0) (ms : List (Message ts)) (input : List con.Token)
        → All P ms
        → Ends
            (λ (c : Choice ts × List con.Token). P c.0.message)
            (interactive_choose ts con ms input)
    unfolding interactive_choose
    interactive_choose_lem P [] input all = tt
    interactive_choose_lem P (m ∷ ms) input all =
        >>=-Ends (λ (r : Message ts × List con.Token). P r.0) _ (ask_message ts con (m ∷ ms) input)
          _ (ask_message_lem P (m ∷ ms) input all) (λ r h. h)

    -- The interactive update manager takes one of the messages that it offers.
    pub interactive-Chooses : Chooses ts (interactive ts con)
    unfolding interactive offered interactive_timestamp
    interactive-Chooses = record {
      message =
          λ P input m ms b keep all. interactive_choose_lem P _ input (offered_All P m ms b all);
      timestamp = λ input m ms. number input m ms;
    }
      where
        offered_All :
            (P : Message ts → Type 0) (m : Message ts) (ms : List (Message ts)) (b : Bool)
            → All P (m ∷ ms)
            → All P (offered ts con (m ∷ ms) b)
        offered_All P m ms true all = filter_unused-All P (m ∷ ms) all
        offered_All P m ms false all = all

        number :
            (input : List con.Token) (m : Message ts) (ms : List (Message ts))
            → Ends (λ (c : T × List con.Token). Unit) (interactive_timestamp ts con (m ∷ ms) input)
        number [] m ms = tt
        number (token ∷ input) m ms = read_number (con.as_double token)
          where
            read_number :
                (o : Option T)
                → Ends
                    (λ (c : T × List con.Token). Unit)
                    (elim o [ none ↦ err Fault.end_of_input | some t ↦ ok (t, input) ])
            read_number none = tt
            read_number (some t) = tt
