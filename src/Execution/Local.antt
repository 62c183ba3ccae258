-- ===== src/Execution/Local.antt =====
-- `evaluateThreadLocalInstructions`: a thread up to its next call of the memory.
use weak_memory_models_mock.Base.{
  ℕ, zero, suc, ◌+◌, ◌≤◌, ◌<◌, ◌⊎◌, ◌≡◌, refl, ap, sym, ◌∙◌, Bool, true, false, some, ℤ, pos, ◌==ℤ◌,
  ok, err, Fault, if◌then◌else◌, at, set, set-set, set-get_elem?, set_at, length, get_elem?,
  get_elem?-some, get_elem?-set_self, EndsIn, EndsIn-map, >>=-EndsIn, IsProper, Bool-cases,
  Option-cases, Result-cases, inl, inr, arith,
}
use weak_memory_models_mock.Program.{
  Program, Instruction, get_instruction, get_label_mapping, IsClosed,
}
use weak_memory_models_mock.Program
use weak_memory_models_mock.Storage.Memory.{Storage}
use weak_memory_models_mock.Storage.Manager.{StorageManager}
use weak_memory_models_mock.Execution.Thread.{
  Thread, is_finished, get_current_instruction, apply, apply_binary_operation, evaluate_next,
  evaluate_instruction,
}
use weak_memory_models_mock.Execution.Threads.{
  ThreadManager, evaluate_thread, is_local, next_is_local, evaluate_thread_local_instructions,
}
use weak_memory_models_mock.Execution.Steps.{
  IsValid, Follows, at_lem, set_at_lem, apply_binary_operation_lem, get_label_mapping_lem,
}

-- Every jump of the program goes forward.
abbrev pub IsForward : Program → Type 0
IsForward p =
    (i r label next : ℕ)
    → get_instruction p i ≡ some (Instruction.goto r label)
    → get_label_mapping p label ≡ ok next
    → i < next

-- The next position of a local instruction.
abbrev Goes : Thread → Instruction → ℕ → Type 0
Goes th i next =
    (next ≡ suc th.current_instruction)
    ⊎ ((r : ℕ) × (label : ℕ) × (i ≡ Instruction.goto r label)
        × (get_label_mapping th.program label ≡ ok next))

module _ {S : Type 0} (manager : StorageManager S) where
  -- What a local instruction does.
  abbrev Local : Thread → Instruction → S → ℕ × Storage × S → Type 0
  Local th i s r =
      (r.0 ≤ Program.size th.program)
      × (length r.1 ≡ length th.local_storage)
      × (r.2 ≡ s)
      × Goes th i r.0

  apply-Local :
      (th : Thread) (i : Instruction) (s : S)
      → is_local i ≡ true
      → IsClosed th.program
      → th.current_instruction < Program.size th.program
      → EndsIn IsProper (Local th i s) (apply manager th i s)
  unfolding apply
  apply-Local th (Instruction.store_const_in_register r x) s e closed here =
      >>=-EndsIn IsProper _ _ (set_at th.local_storage r x) _ (set_at_lem th.local_storage r x)
        (λ v n. (omega arith, n, refl, inl refl))
  apply-Local th (Instruction.store_expr_in_register r a op b) s e closed here =
      >>=-EndsIn IsProper _ _ (at th.local_storage a) _ (at_lem th.local_storage a) (λ x _.
        >>=-EndsIn IsProper _ _ (at th.local_storage b) _ (at_lem th.local_storage b) (λ y _.
          >>=-EndsIn IsProper _ _ (apply_binary_operation op x y) _
            (apply_binary_operation_lem op x y)
            (λ z _.
              >>=-EndsIn IsProper _ _ (set_at th.local_storage r z) _
                (set_at_lem th.local_storage r z) (λ v n. (omega arith, n, refl, inl refl)))))
  apply-Local th (Instruction.goto r label) s e closed here =
      >>=-EndsIn IsProper _ _ (at th.local_storage r) _ (at_lem th.local_storage r) (λ c _.
        >>=-EndsIn IsProper Branch _ _ _ (branch (c ==ℤ pos 0)) (λ next h. (h.0, refl, refl, h.1)))
    where
      Branch : ℕ → Type 0
      Branch next = (next ≤ Program.size th.program) × Goes th (Instruction.goto r label) next

      branch :
          (b : Bool)
          → EndsIn IsProper Branch
              (if b then ok (suc th.current_instruction) else get_label_mapping th.program label)
      branch true = (omega arith, inl refl)
      branch false = elim (Result-cases (get_label_mapping th.program label)) [
        | inl (next, f) ↦
            let below = rw f at (get_label_mapping_lem th.program label closed) in
            rw f (below, inr (r, label, refl, f))
        | inr (fault, f) ↦
            let proper = rw f at (get_label_mapping_lem th.program label closed) in rw f proper
      ]
  apply-Local th (Instruction.load mode a r) s e closed here = absurd (cc)
  apply-Local th (Instruction.store mode a r) s e closed here = absurd (cc)
  apply-Local th (Instruction.compare_and_swap mode a r r') s e closed here = absurd (cc)
  apply-Local th (Instruction.fetch_and_increment mode a r) s e closed here = absurd (cc)
  apply-Local th (Instruction.fence mode) s e closed here = absurd (cc)

  -- The thread after a local instruction, and where it stands if jumps go forward.
  abbrev After : Thread → Thread → Type 0
  After th th' =
      Follows th th' × (IsForward th.program → th.current_instruction < th'.current_instruction)

  abbrev Stepped : ThreadManager → ℕ → Thread → S → Bool × ThreadManager × S → Type 0
  Stepped threads t th s r = (th' : Thread) × (r.1 ≡ set threads t th') × (r.2 ≡ s) × After th th'

  evaluate_thread-Stepped :
      (threads : ThreadManager) (t : ℕ) (th : Thread) (s : S)
      → get_elem? threads t ≡ some th
      → next_is_local (get_current_instruction th) ≡ true
      → IsValid th
      → EndsIn IsProper (Stepped threads t th s) (evaluate_thread manager threads t s)
  evaluate_thread-Stepped threads t th s here e v =
      elim (Option-cases (get_current_instruction th)) [
        | inl f ↦ let e' = rw f at e in absurd (cc)
        | inr (i, f) ↦ step i f (rw f at e)
      ]
    where
      Stays : Bool × Thread × S → Type 0
      Stays r = (r.2 ≡ s) × After th r.1

      stays :
          (i : Instruction)
          → get_current_instruction th ≡ some i
          → (r : ℕ × Storage × S) → Local th i s r
          → Stays (true, record th { local_storage = r.1; current_instruction = r.0 }, r.2)
      stays i f r (position, registers, same, goes) = (
        same,
        (
          record {
            valid = record { closed = v.closed; position = position };
            program = refl;
            id = refl;
            registers = registers;
          },
          λ forward. elim goes [
            | inl e ↦ omega (arith, e)
            | inr (register, label, q, mapped) ↦
                forward th.current_instruction register label r.0 (f ∙ ap some q) mapped
          ],
        ),
      )

      step :
          (i : Instruction)
          → get_current_instruction th ≡ some i
          → is_local i ≡ true
          → EndsIn IsProper (Stepped threads t th s) (evaluate_thread manager threads t s)
      step i f local =
          let below = get_elem?-some th.program.program th.current_instruction f in
          let going : is_finished th ≡ false = ground (arith, below) in
          unfold evaluate_thread evaluate_instruction evaluate_next in
          rw (here, going, f)
            (>>=-EndsIn IsProper Stays _ _ _
              (>>=-EndsIn IsProper (Local th i s) Stays (apply manager th i s) _
                (apply-Local th i s local v.closed below) (λ r h. stays i f r h))
              (λ r h. (r.1, refl, h.0, h.1)))

  -- What is left when the thread has come to its next call of the memory, or to its end.
  abbrev pub Stopped : ThreadManager → ℕ → Thread → S → ThreadManager × S → Type 0
  Stopped threads t th s r =
      (th' : Thread) × (r.0 ≡ set threads t th')
      × (r.1 ≡ s)
      × Follows th th'
      × (next_is_local (get_current_instruction th') ≡ false)

  Follows-trans : (a b c : Thread) → Follows a b → Follows b c → Follows a c
  Follows-trans a b c h k = record {
    valid = k.valid;
    program = k.program ∙ h.program;
    id = k.id ∙ h.id;
    registers = k.registers ∙ h.registers;
  }

  -- A thread whose program jumps forward only is evaluated by `evaluateThreadLocalInstructions` up to
  -- its next call of the memory or to its end, within a round for each instruction that is left and one
  -- more; or it ends at a fault of one of these instructions. The memory and the other threads are
  -- unchanged, and the thread is valid, with the same program, number and count of registers.
  pub evaluate_thread_local_instructions-Stopped :
      (fuel : ℕ) (threads : ThreadManager) (t : ℕ) (th : Thread) (s : S)
      → get_elem? threads t ≡ some th
      → IsValid th
      → IsForward th.program
      → Program.size th.program < fuel + th.current_instruction
      → EndsIn IsProper
          (Stopped threads t th s)
          (evaluate_thread_local_instructions manager fuel threads t s)
  unfolding evaluate_thread_local_instructions
  evaluate_thread_local_instructions-Stopped zero threads t th s here v forward enough =
      absurd (omega (arith, v.position, enough))
  evaluate_thread_local_instructions-Stopped (suc fuel) threads t th s here v forward enough =
      elim (Bool-cases (next_is_local (get_current_instruction th))) [
        | inr e ↦
            rw (here, e)
              (
                th,
                sym (set-get_elem? threads t here),
                refl,
                record { valid = v; program = refl; id = refl; registers = refl },
                e,
              )
        | inl e ↦
            rw (here, e)
              (>>=-EndsIn IsProper (Stepped threads t th s) (Stopped threads t th s)
                (evaluate_thread manager threads t s) _
                (evaluate_thread-Stepped threads t th s here e v)
                (λ r h. again r h (λ th' k.
                  evaluate_thread_local_instructions-Stopped fuel r.1 t th' r.2 k.0 k.1 k.2 k.3)))
      ]
    where
      again :
          (r : Bool × ThreadManager × S)
          → Stepped threads t th s r
          → ((th' : Thread)
              → (get_elem? r.1 t ≡ some th')
                × IsValid th'
                × IsForward th'.program
                × (Program.size th'.program < fuel + th'.current_instruction)
              → EndsIn IsProper
                  (Stopped r.1 t th' r.2)
                  (evaluate_thread_local_instructions manager fuel r.1 t r.2))
          → EndsIn IsProper
              (Stopped threads t th s)
              (evaluate_thread_local_instructions manager fuel r.1 t r.2)
      again r (th', put, same, (follows, further)) rest =
          let here' : get_elem? r.1 t ≡ some th' = rw put (get_elem?-set_self threads t th' here) in
          let size : Program.size th'.program ≡ Program.size th.program =
            ap Program.size follows.program in
          let forward' : IsForward th'.program = rw follows.program forward in
          EndsIn-map IsProper (Stopped r.1 t th' r.2) (Stopped threads t th s)
            (evaluate_thread_local_instructions manager fuel r.1 t r.2)
            (λ r' h. (
              h.0,
              h.1 ∙ ap (λ x. set x t h.0) put ∙ set-set threads t th' h.0,
              h.2 ∙ same,
              Follows-trans th th' h.0 follows h.3,
              h.4,
            ))
            (rest th'
              (here', follows.valid, forward', omega (arith, enough, further forward, size)))

  -- A thread at a jump back to itself whose condition is not zero keeps `evaluateThreadLocalInstructions`
  -- busy for ever: however many rounds there are, it is not done.
  pub evaluate_thread_local_instructions-Spins :
      (fuel : ℕ) (threads : ThreadManager) (t : ℕ) (th : Thread) (s : S) (r label : ℕ) (x : ℤ)
      → get_elem? threads t ≡ some th
      → is_finished th ≡ false
      → get_current_instruction th ≡ some (Instruction.goto r label)
      → get_elem? th.local_storage r ≡ some x
      → (x ==ℤ pos 0) ≡ false
      → get_label_mapping th.program label ≡ ok th.current_instruction
      → evaluate_thread_local_instructions manager fuel threads t s ≡ err Fault.out_of_fuel
  unfolding evaluate_thread_local_instructions
  evaluate_thread_local_instructions-Spins zero threads t th s r label x here going f read e back =
      refl
  evaluate_thread_local_instructions-Spins (suc fuel) threads t th s r label x here going f read e
        back =
      let again : evaluate_thread manager threads t s ≡ ok (true, threads, s) =
        unfold evaluate_thread evaluate_instruction evaluate_next apply in
        rw (here, going, f, read, e, back, set-get_elem? threads t here) in
      rw (here, f, again)
        (evaluate_thread_local_instructions-Spins fuel threads t th s r label x here going f read e
          back)
