-- ===== src/Execution/AskTests.antt =====
-- The interactive executor on typed characters and numbers, over the SC memory.
use weak_memory_models_mock.Base.{
  ℕ, zero, suc, ◌+◌, ◌%◌, ◌<◌, ◌≡◌, refl, Bool, true, false, Option, none, some, pos, List, [], ◌∷◌,
  Result, ok, err, ◌>>=◌, length, EndsIn, Fault, inr, IsProper, arith,
}
use weak_memory_models_mock.Program.{
  Program, Instruction, MemoryAccessMode, get_instruction, get_label_mapping,
}
use weak_memory_models_mock.Storage.Manager.{StorageManager}
use weak_memory_models_mock.Storage.Sc.{Sc}
use weak_memory_models_mock.Storage.Sc
use weak_memory_models_mock.Execution.Steps.{Behaves}
use weak_memory_models_mock.Execution.Memories.{sc-Behaves, Any}
use weak_memory_models_mock.Execution.Interactive.{
  Input, InteractiveExecutor, chosen, execute, ask_thread,
}
use weak_memory_models_mock.Execution.Stuck.{ask_thread-Spins}
use weak_memory_models_mock.Execution.Asking.{Reads, Typed, IsWaiting, execute-IsWaiting}

-- A word that is typed: a letter, or a number.
data Word : Type 0 where
  letter number : ℕ → Word

-- `std::cin`: whether its fail bit is set, and the words that are left. Beside it the memory.
abbrev Stream : Type 0
Stream = Bool × List Word

abbrev Typing : Type 0
Typing = Stream × Sc

abbrev Numbers : List Word → Type 0
Numbers [] = Unit
Numbers (Word.letter c ∷ words) = ⊥
Numbers (Word.number n ∷ words) = Numbers words

-- The stream has come to the end, or it has not failed and only numbers are left.
abbrev Numeric : Stream → Type 0
Numeric (failed, []) = Unit
Numeric (true, w ∷ words) = ⊥
Numeric (false, w ∷ words) = Numbers (w ∷ words)

-- Letters up to one that names an operation, and then numbers.
abbrev Asks : List Word → Type 0
Asks [] = Unit
Asks (Word.letter c ∷ words) = elim (chosen c) [ none ↦ Asks words | some first ↦ Numbers words ]
Asks (Word.number n ∷ words) = ⊥

abbrev Asked : Typing → Type 0
Asked x = (x.0.0 ≡ false) × Asks x.0.1

abbrev Inv : Typing → Type 0
Inv x = Numeric x.0

abbrev typed_manager : StorageManager Typing
typed_manager = record {
  load = λ s t a o. Sc.manager.load s.1 t a o >>= λ r. ok (r.0, (s.0, r.1));
  store = λ s t a x o. Sc.manager.store s.1 t a x o >>= λ r. ok (s.0, r);
  compare_and_swap = λ s t a x y o. Sc.manager.compare_and_swap s.1 t a x y o >>= λ r. ok (s.0, r);
  fetch_and_increment =
      λ s t a i o. Sc.manager.fetch_and_increment s.1 t a i o >>= λ r. ok (s.0, r);
  fence = λ s t o. Sc.manager.fence s.1 t o >>= λ r. ok (s.0, r);
  internal_update = λ s. Sc.manager.internal_update s.1 >>= λ r. ok (r.0, (s.0, r.1));
}

mapped :
    {A B : Type 0} (P : B → Type 0) (f : A → B) (r : Result A)
    → ((a : A) → P (f a))
    → EndsIn IsProper Any r
    → EndsIn IsProper P (r >>= λ a. ok (f a))
mapped P f (ok a) each h = each a
mapped P f (err e) each h = h

typed-Behaves : (n : ℕ) → Behaves typed_manager n Inv
typed-Behaves n =
    let b = sc-Behaves n in
    record {
      load = λ s t a o v h. mapped _ _ (Sc.manager.load s.1 t a o) (λ r. v) (b.load s.1 t a o tt h);
      store = λ s t a x o v h.
          mapped Inv _ (Sc.manager.store s.1 t a x o) (λ r. v) (b.store s.1 t a x o tt h);
      compare_and_swap = λ s t a x y o v h.
          mapped Inv _ (Sc.manager.compare_and_swap s.1 t a x y o) (λ r. v)
            (b.compare_and_swap s.1 t a x y o tt h);
      fetch_and_increment = λ s t a i o v h.
          mapped Inv _ (Sc.manager.fetch_and_increment s.1 t a i o) (λ r. v)
            (b.fetch_and_increment s.1 t a i o tt h);
      fence = λ s t o v h. mapped Inv _ (Sc.manager.fence s.1 t o) (λ r. v) (b.fence s.1 t o tt h);
      internal_update =
          λ s v. mapped _ _ (Sc.manager.internal_update s.1) (λ r. v) (b.internal_update s.1 tt);
    }

abbrev read_operation : Stream → Option ℕ × Stream
read_operation (true, words) = (none, (true, words))
read_operation (false, []) = (none, (true, []))
read_operation (false, Word.letter c ∷ words) = (some c, (false, words))
read_operation (false, Word.number n ∷ words) = (some (b'0' + n % 10), (false, words))

-- A letter stays where it stands. The variable is 0 then, and here after a failure too.
abbrev read_thread_id : Stream → Bool × ℕ × Stream
read_thread_id (failed, []) = (true, 0, (true, []))
read_thread_id (true, w ∷ words) = (false, 0, (true, w ∷ words))
read_thread_id (false, Word.letter c ∷ words) = (false, 0, (true, Word.letter c ∷ words))
read_thread_id (false, Word.number n ∷ words) = (false, n, (false, words))

abbrev fails : Stream → Bool
fails (failed, []) = false
fails (true, w ∷ words) = true
fails (false, Word.letter c ∷ words) = true
fails (false, Word.number n ∷ words) = false

abbrev typed : Input Typing
typed = record {
  read_operation = λ x. let r = read_operation x.0 in (r.0, (r.1, x.1));
  read_thread_id = λ x. let r = read_thread_id x.0 in (r.0, r.1, (r.2, x.1));
  fails = λ x. fails x.0;
  left = λ x. length x.0.1;
}

operation_left :
    (s : Stream) (c : ℕ)
    → (read_operation s).0 ≡ some c
    → length (read_operation s).1.1 < length s.1
operation_left (true, words) c e = absurd (cc)
operation_left (false, []) c e = absurd (cc)
operation_left (false, Word.letter d ∷ words) c e = omega arith
operation_left (false, Word.number n ∷ words) c e = omega arith

thread_left :
    (s : Stream)
    → (read_thread_id s).0 ≡ false
    → fails s ≡ false
    → length (read_thread_id s).2.1 < length s.1
thread_left (failed, []) e f = absurd (cc)
thread_left (true, w ∷ words) e f = absurd (cc)
thread_left (false, Word.letter c ∷ words) e f = absurd (cc)
thread_left (false, Word.number n ∷ words) e f = omega arith

typed-Reads : Reads typed
typed-Reads = record {
  operation = λ x c e. operation_left x.0 c e;
  thread_id = λ x e f. thread_left x.0 e f;
}

Numbers-Numeric : (words : List Word) → Numbers words → Numeric (false, words)
Numbers-Numeric [] h = tt
Numbers-Numeric (w ∷ words) h = h

again :
    (s : Stream) (c : ℕ)
    → (s.0 ≡ false) × Asks s.1
    → (read_operation s).0 ≡ some c
    → chosen c ≡ none
    → ((read_operation s).1.0 ≡ false) × Asks (read_operation s).1.1
again (true, words) c h e f = absurd (cc)
again (false, []) c h e f = absurd (cc)
again (false, Word.letter d ∷ words) c h e f =
    let same : d ≡ c = cc in
    let f' = rw (← same) at f in let rest = rw (Asks, f') at h.1 in (refl, rest)
again (false, Word.number n ∷ words) c h e f = absurd h.1

begins :
    (s : Stream) (c : ℕ) (first : Bool)
    → (s.0 ≡ false) × Asks s.1
    → (read_operation s).0 ≡ some c
    → chosen c ≡ some first
    → Numeric (read_operation s).1
begins (true, words) c first h e f = absurd (cc)
begins (false, []) c first h e f = absurd (cc)
begins (false, Word.letter d ∷ words) c first h e f =
    let same : d ≡ c = cc in
    let f' = rw (← same) at f in let rest = rw (Asks, f') at h.1 in Numbers-Numeric words rest
begins (false, Word.number n ∷ words) c first h e f = absurd h.1

ends : (s : Stream) → s.0 ≡ false → (read_operation s).0 ≡ none → Numeric (read_operation s).1
ends (true, words) h e = absurd (cc)
ends (false, []) h e = tt
ends (false, Word.letter d ∷ words) h e = absurd (cc)
ends (false, Word.number n ∷ words) h e = absurd (cc)

numbers : (s : Stream) → Numeric s → fails s ≡ false
numbers (failed, []) h = refl
numbers (true, w ∷ words) h = absurd h
numbers (false, Word.letter c ∷ words) h = absurd h
numbers (false, Word.number n ∷ words) h = refl

keeps : (s : Stream) → Numeric s → Numeric (read_thread_id s).2
keeps (failed, []) h = tt
keeps (true, w ∷ words) h = absurd h
keeps (false, Word.letter c ∷ words) h = absurd h
keeps (false, Word.number n ∷ words) h = Numbers-Numeric words h

typed-Typed : Typed typed Asked Inv
typed-Typed = record {
  again = λ x c h e f. again x.0 c h e f;
  begins = λ x c first h e f. begins x.0 c first h e f;
  ends = λ x h e. ends x.0 h.0 e;
  numbers = λ x h. numbers x.0 h;
  keeps = λ x h. keeps x.0 h;
}

-- r0 = 1; store RLX #r1 r0.
abbrev storing : Program
storing = record {
  program =
      Instruction.store_const_in_register 0 (pos 1)
      ∷ Instruction.store MemoryAccessMode.relaxed 1 0
      ∷ [];
  label_mapping = [];
}

storing-IsForward :
    (i r label next : ℕ)
    → get_instruction storing i ≡ some (Instruction.goto r label)
    → get_label_mapping storing label ≡ ok next
    → i < next
storing-IsForward zero r label next e f = absurd (cc)
storing-IsForward (suc zero) r label next e f = absurd (cc)
storing-IsForward (suc (suc i)) r label next e f = absurd (cc)

-- An unknown character, a thread that does not exist, and one that does.
abbrev waiting : InteractiveExecutor typed_manager typed 3
waiting = record {
  thread_manager =
      record {
        program = storing;
        local_storage = pos 0 ∷ pos 0 ∷ [];
        current_instruction = 0;
        id = 0;
      }
      ∷ [];
  memory = (
    (false, Word.letter b'x' ∷ Word.letter b'T' ∷ Word.number 5 ∷ Word.number 0 ∷ []),
    record { storage = pos 0 ∷ []; log = [] },
  );
}

waiting-IsWaiting :
    IsWaiting typed_manager 1 Asked Inv
      (typed-Behaves 1)
      typed
      typed-Reads
      typed-Typed
      3
      Asked
      waiting
waiting-IsWaiting = record {
  ready = (
    record {
      valid = record { closed = tt; position = omega arith };
      forward = storing-IsForward;
      short = omega arith;
    },
    tt,
  );
  numbered = (refl, tt);
  count = refl;
  memory = (refl, tt);
}

execute-IsWaiting_example :
    EndsIn IsProper
      (λ (r : Bool × InteractiveExecutor typed_manager typed 3).
        IsWaiting typed_manager 1 Asked Inv
          (typed-Behaves 1)
          typed
          typed-Reads
          typed-Typed
          3
          Inv
          r.1)
      (execute typed_manager typed 3 waiting)
execute-IsWaiting_example =
    execute-IsWaiting typed_manager 1 Asked Inv (typed-Behaves 1) typed typed-Reads typed-Typed 3
      waiting waiting-IsWaiting

-- The only thread has finished, and a letter was read for a number.
abbrev stuck : InteractiveExecutor typed_manager typed 3
stuck = record {
  thread_manager =
      record {
        program = storing;
        local_storage = pos 0 ∷ pos 0 ∷ [];
        current_instruction = 2;
        id = 0;
      }
      ∷ [];
  memory = ((true, Word.letter b'x' ∷ []), record { storage = pos 0 ∷ []; log = [] });
}

ask_thread-Spins_example : ask_thread typed_manager typed 3 1000 stuck ≡ err Fault.out_of_fuel
ask_thread-Spins_example =
    ask_thread-Spins typed_manager typed 3 1000 stuck 0 refl (inr (_, refl, refl))
