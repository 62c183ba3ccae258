-- ===== src/Storage/Ra/Updates.antt =====
-- The update managers of src/Storage/src/ReleaseAcquireStorageManager.cpp: which message is read, and
-- the timestamp of a new one.
use weak_memory_models_mock.Base.{
  ℕ, suc, ◌-◌, ◌≤◌, Bool, true, false, Option, none, some, List, [], ◌∷◌, Result, ok, err, Fault,
  ◌>>=◌, leb, ◌==◌, if◌then◌else◌, length, get_elem?,
}
use weak_memory_models_mock.Storage.Ra.Timestamps.{Timestamps, middle_timestamp}
use weak_memory_models_mock.Storage.Ra.Messages.{
  Message, count_unused, filter_unused, find_pos, back,
}
use weak_memory_models_mock.Storage.Ra.{UpdateManager, Choice, index}

-- `std::uniform_int_distribution<size_t>(a, b)(generator)`, which wants `a <= b`.
pub record Uniform : Type 1 where
  pub Generator : Type 0
  pub draw : Generator → ℕ → ℕ → ℕ × Generator
  pub draw_in_range :
      (g : Generator) (a b : ℕ) → a ≤ b → (a ≤ (draw g a b).0) × ((draw g a b).0 ≤ b)

-- What `std::cin` gives: tokens, which are read as an index or as a timestamp.
pub record Console (T : Type 0) : Type 1 where
  pub Token : Type 0
  pub as_size : Token → Option ℕ
  pub as_double : Token → Option T

module _ (ts : Timestamps) where
  open ts use {T, next}

  module _ (un : Uniform) where
    open un use {Generator, draw}

    unfoldable pub distribution : Generator → ℕ → ℕ → Result (ℕ × Generator)
    distribution g a b = if leb a b then ok (draw g a b) else err Fault.bad_draw

    -- `RandomInternalUpdateManager::chooseMessage` before an atomic update; it sets the flag.
    unfoldable pub choose_unused : Generator → List (Message ts) → Result (Choice ts × Generator)
    choose_unused g messages = do
      pos ← distribution g 1 (count_unused ts messages)
      at_pos ← find_pos ts pos.0 messages
      m ← index messages at_pos
      ok (
        record {
          message = record m { is_used_by_atomic_update = true };
          marked = some m.timestamp;
        },
        pos.1,
      )

    -- The same for a read that no write follows.
    unfoldable pub choose_any : Generator → List (Message ts) → Result (Choice ts × Generator)
    choose_any g messages = do
      pos ← distribution g 0 (length messages - 1)
      m ← index messages pos.0
      ok (record { message = m; marked = none }, pos.1)

    unfoldable pub random_choose_message :
        Generator → List (Message ts) → Bool → Result (Choice ts × Generator)
    unfolding choose_unused choose_any
    random_choose_message g [] before_update = err Fault.assertion
    random_choose_message g (x ∷ h) true = choose_unused g (x ∷ h)
    random_choose_message g (x ∷ h) false = choose_any g (x ∷ h)

    -- The timestamp after the message at a position.
    unfoldable pub after_position : List (Message ts) → ℕ → Result T
    after_position messages pos =
        if pos == length messages - 1
        then (back ts messages >>= λ x. ok (next x.timestamp))
        else (index messages pos >>= λ x.
            index messages (suc pos) >>= λ y. middle_timestamp ts x.timestamp y.timestamp)

    unfoldable pub random_choose_new_timestamp :
        Generator → List (Message ts) → Result (T × Generator)
    unfolding after_position
    random_choose_new_timestamp g [] = err Fault.assertion
    random_choose_new_timestamp g (x ∷ h) = do
      pos ← distribution g 1 (count_unused ts (x ∷ h))
      base ← find_pos ts pos.0 (x ∷ h)
      t ← after_position (x ∷ h) base
      ok (t, pos.1)

    unfoldable pub random : UpdateManager ts Generator
    unfolding random_choose_message random_choose_new_timestamp
    random = record {
      choose_message = random_choose_message;
      choose_new_timestamp = random_choose_new_timestamp;
    }

  module _ (con : Console T) where
    open con use {Token, as_size, as_double}

    -- The loop that asks until it is given the position of a message.
    unfoldable pub ask_message : List (Message ts) → List Token → Result (Message ts × List Token)
    ask_message messages [] = err Fault.end_of_input
    ask_message messages (token ∷ input) =
        let again = ask_message messages input in
        elim (as_size token) [
          | none ↦ err Fault.end_of_input
          | some i ↦ elim (get_elem? messages i) [ none ↦ again | some m ↦ ok (m, input) ]
        ]

    -- `InteractiveInternalUpdateManager::chooseMessage`, which sets no flag.
    unfoldable pub offered : List (Message ts) → Bool → List (Message ts)
    offered messages true = filter_unused ts messages
    offered messages false = messages

    unfoldable pub interactive_choose :
        List (Message ts) → List Token → Result (Choice ts × List Token)
    unfolding ask_message
    interactive_choose [] input = err Fault.assertion
    interactive_choose (x ∷ h) input =
        ask_message (x ∷ h) input >>= λ r. ok (record { message = r.0; marked = none }, r.1)

    -- Any number is taken as the new timestamp.
    unfoldable pub interactive_timestamp : List (Message ts) → List Token → Result (T × List Token)
    interactive_timestamp [] input = err Fault.assertion
    interactive_timestamp (x ∷ h) [] = err Fault.end_of_input
    interactive_timestamp (x ∷ h) (token ∷ input) = elim (as_double token) [
      | none ↦ err Fault.end_of_input
      | some t ↦ ok (t, input)
    ]

    unfoldable pub interactive : UpdateManager ts (List Token)
    unfolding offered interactive_choose interactive_timestamp
    interactive = record {
      choose_message =
          λ input messages before_update. interactive_choose (offered messages before_update) input;
      choose_new_timestamp = λ input messages. interactive_timestamp messages input;
    }
