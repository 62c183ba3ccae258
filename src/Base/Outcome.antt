-- ===== src/Base/Outcome.antt =====
-- How a call of the program ends: with a value, or at a fault. No caller catches what the storage
-- or the execution throws, so the process ends there and no state follows a fault.
use Prim.Native.Nat.{ℕ}
use mathlib.Core.Path.{◌≡◌, refl}
use mathlib.Core.Logic.{◌⊎◌, inl, inr}
use mathlib.Core.Option.{Option, none, some}
use mathlib.Core.List.{List}
use weak_memory_models_mock.Base.Lists.{get_elem?, set}

pub data Fault : Type 0 where
  out_of_range : Fault  -- std::out_of_range, from `at`
  overflow : Fault  -- the result of an int32_t operation does not fit: undefined behaviour
  division_by_zero : Fault  -- undefined behaviour
  bad_index : Fault  -- `operator[]`, `back` or `begin` outside the container: undefined behaviour
  bad_draw : Fault  -- uniform_int_distribution(a, b) with b < a: undefined behaviour
  assertion : Fault  -- assert
  no_timestamp : Fault  -- "Can't generate a proper timestamp"
  end_of_input : Fault  -- "End of input"
  all_blocked : Fault  -- "All threads are blocked"
  out_of_fuel : Fault  -- of the model: a loop was given too few rounds

pub data Result {ℓ} (A : Type ℓ) : Type ℓ where
  err : Fault → Result A
  ok : A → Result A

-- A call that is made if the one before it returns.
infixl 5 ◌>>=◌
abbrev pub ◌>>=◌ {ℓ κ} : {V : Type ℓ} {W : Type κ} → Result V → (V → Result W) → Result W
err fault >>= next = err fault
ok v >>= next = next v

abbrev pub or_throw {ℓ} : {A : Type ℓ} → Option A → Fault → Result A
or_throw none e = err e
or_throw (some a) e = ok a

-- `v.at(i)`, read and written
abbrev pub at {ℓ} : {A : Type ℓ} → List A → ℕ → Result A
at xs i = or_throw (get_elem? xs i) Fault.out_of_range

abbrev pub set_at {ℓ} : {A : Type ℓ} → List A → ℕ → A → Result (List A)
set_at xs i v = at xs i >>= λ _. ok (set xs i v)

pub Result-cases {ℓ} :
    {A : Type ℓ} (r : Result A) → ((a : A) × (r ≡ ok a)) ⊎ ((e : Fault) × (r ≡ err e))
Result-cases (ok a) = inl (a, refl)
Result-cases (err e) = inr (e, refl)

-- The faults that a call may end at although nothing is read outside a container, every loop ends
-- and no address is out of range.
abbrev pub IsExpected : Fault → Type 0
IsExpected Fault.out_of_range = ⊥
IsExpected Fault.bad_index = ⊥
IsExpected Fault.out_of_fuel = ⊥
IsExpected _ = Unit

-- The faults that a run may end at where the executor and the threads are right: not a thread that
-- no longer runs, no null pointer, and no index outside a container.
abbrev pub IsProper : Fault → Type 0
IsProper Fault.bad_index = ⊥
IsProper Fault.out_of_fuel = ⊥
IsProper Fault.all_blocked = ⊥
IsProper _ = Unit

-- The value has the property, or the fault is one of those that are allowed.
module _ {ℓ} {V : Type ℓ} where
  abbrev pub EndsIn : (Fault → Type 0) → (V → Type 0) → Result V → Type 0
  EndsIn Allowed Holds (err fault) = Allowed fault
  EndsIn Allowed Holds (ok v) = Holds v

  abbrev pub Ends : (V → Type 0) → Result V → Type 0
  Ends Holds call = EndsIn IsExpected Holds call

  pub EndsIn-map :
      (Allowed : Fault → Type 0) (Has Wants : V → Type 0) (call : Result V)
      → ((v : V) → Has v → Wants v)
      → EndsIn Allowed Has call
      → EndsIn Allowed Wants call
  EndsIn-map Allowed Has Wants (err fault) step ends = ends
  EndsIn-map Allowed Has Wants (ok v) step ends = step v ends

  pub Ends-map :
      (Has Wants : V → Type 0) (call : Result V)
      → ((v : V) → Has v → Wants v)
      → Ends Has call
      → Ends Wants call
  Ends-map = EndsIn-map IsExpected

pub >>=-EndsIn {ℓ κ} :
    {V : Type ℓ} {W : Type κ} (Allowed : Fault → Type 0) (Has : V → Type 0) (Wants : W → Type 0)
    (call : Result V) (next : V → Result W)
    → EndsIn Allowed Has call
    → ((v : V) → Has v → EndsIn Allowed Wants (next v))
    → EndsIn Allowed Wants (call >>= next)
>>=-EndsIn Allowed Has Wants (err fault) next ends step = ends
>>=-EndsIn Allowed Has Wants (ok v) next ends step = step v ends

pub >>=-Ends {ℓ κ} :
    {V : Type ℓ} {W : Type κ} (Has : V → Type 0) (Wants : W → Type 0) (call : Result V)
    (next : V → Result W)
    → Ends Has call
    → ((v : V) → Has v → Ends Wants (next v))
    → Ends Wants (call >>= next)
>>=-Ends = >>=-EndsIn IsExpected
