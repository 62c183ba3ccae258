-- ===== src/Storage/Ra/Messages.antt =====
-- `struct Message` and `class SortedMessageHistory` of src/Storage/ReleaseAcquireStorageManager.h,
-- and the helpers of src/Storage/src/ReleaseAcquireStorageManager.cpp on lists of messages.
use weak_memory_models_mock.Base.{
  ℕ, suc, ◌+◌, Bool, true, false, not, Option, none, ℤ, pos, List, [], ◌∷◌, Result, ok, err, Fault,
  if◌then◌else◌, ◌==◌, ◌&&◌,
}
use weak_memory_models_mock.Storage.Ra.Timestamps.{Timestamps, View, create}

module _ (ts : Timestamps) where
  open ts use {T, lt}

  pub record Message : Type 0 where
    pub location : ℕ
    pub value : ℤ
    pub timestamp : T
    pub base_view : View ts
    pub release_view : Option (View ts)
    pub is_used_by_atomic_update : Bool

  -- `Message(location, viewSize)`
  abbrev pub initial : ℕ → ℕ → Message
  initial location view_size = record {
    location = location;
    value = pos 0;
    timestamp = ts.zero;
    base_view = create ts view_size;
    release_view = none;
    is_used_by_atomic_update = false;
  }

  -- `std::map<double, Message>`: the messages in the order of their keys, which are their
  -- timestamps.
  abbrev pub History : Type 0
  History = List Message

  -- `push`: `std::map::insert`, which leaves the map alone where the key is taken.
  unfoldable pub push : Message → History → History
  push m [] = m ∷ []
  push m (x ∷ h) =
      if lt m.timestamp x.timestamp
      then m ∷ x ∷ h
      else (if lt x.timestamp m.timestamp then x ∷ push m h else x ∷ h)

  -- `filterGreaterOrEqualTimestamp`: from `lower_bound` to the end.
  unfoldable pub from_timestamp : T → History → History
  from_timestamp t [] = []
  from_timestamp t (x ∷ h) = if lt x.timestamp t then from_timestamp t h else x ∷ h

  -- A write through a `MessageRef`: the flag of the message with that key.
  unfoldable pub mark_used : T → History → History
  mark_used t [] = []
  mark_used t (x ∷ h) =
      if not (lt t x.timestamp) && not (lt x.timestamp t)
      then record x { is_used_by_atomic_update = true } ∷ h
      else x ∷ mark_used t h

  -- The loop of `cleanUpHistory`; `begin()` of an empty map is no element.
  unfoldable pub drop_older : T → History → Result History
  drop_older t [] = err Fault.bad_index
  drop_older t (x ∷ h) = if lt x.timestamp t then drop_older t h else ok (x ∷ h)

  -- `messages.back()`
  unfoldable pub back : History → Result Message
  back [] = err Fault.bad_index
  back (x ∷ []) = ok x
  back (x ∷ y ∷ h) = back (y ∷ h)

  -- `countMessagesNotUsedInAtomicUpdates`
  unfoldable pub count_unused : List Message → ℕ
  count_unused [] = 0
  count_unused (x ∷ h) = (if not x.is_used_by_atomic_update then 1 else 0) + count_unused h

  -- `filterMessagesNotUsedInAtomicUpdates`
  unfoldable pub filter_unused : List Message → List Message
  filter_unused [] = []
  filter_unused (x ∷ h) =
      if not x.is_used_by_atomic_update then x ∷ filter_unused h else filter_unused h

  -- The loop of `findPosOfNthMessageNotUsedInAtomicUpdates` at position `i` after `count` messages.
  unfoldable pub find_from : ℕ → ℕ → ℕ → List Message → Result ℕ
  find_from n count i [] = err Fault.assertion
  find_from n count i (x ∷ h) =
      let skip = find_from n count (suc i) h in
      let on = find_from n (suc count) (suc i) h in
      if x.is_used_by_atomic_update then skip else (if suc count == n then ok i else on)

  unfoldable pub find_pos : ℕ → List Message → Result ℕ
  unfolding find_from
  find_pos n messages = find_from n 0 0 messages
