-- ===== src/Execution/Steps.antt =====
-- A step of a thread, over any storage manager that keeps an invariant.
use weak_memory_models_mock.Base.{
  ℕ, suc, ◌+◌, ◌*◌, ◌/◌, sub_ℕ, pos_part, neg_part, ◌≤◌, ◌<◌, ◌≡◌, refl, Bool, true, false, not, ℤ,
  pos, ◌==ℤ◌, to_size, add32, sub32, mul32, div32, fits32, List, ok, err, Fault, if◌then◌else◌, at,
  set_at, length, length-set, get_elem?, get_elem?-lt, EndsIn, >>=-EndsIn, IsProper, Bool-cases,
  Option-cases, inl, inr, arith,
}
use weak_memory_models_mock.Program.{
  Program, Instruction, BinaryOperation, MemoryAccessMode, get_instruction, get_label_mapping,
  find_label, find_label_lem, IsClosed,
}
use weak_memory_models_mock.Program
use weak_memory_models_mock.Storage.AccessMode.{AccessMode}
use weak_memory_models_mock.Storage.Memory.{Storage}
use weak_memory_models_mock.Storage.Manager.{StorageManager}
use weak_memory_models_mock.Execution.Thread.{
  Thread, is_finished, apply, apply_binary_operation, evaluate_next, evaluate_instruction,
  to_storage,
}

-- What the threads of a run rely on: the operations of the manager, called by one of the threads,
-- end at a proper fault or keep the invariant of the manager.
pub record Behaves {S : Type 0} (manager : StorageManager S) (threads : ℕ) (Inv : S → Type 0)
    : Type 0 where
  pub load :
      (s : S) (t a : ℕ) (o : AccessMode)
      → Inv s
      → t < threads
      → EndsIn IsProper (λ (r : ℤ × S). Inv r.1) (manager.load s t a o)
  pub store :
      (s : S) (t a : ℕ) (x : ℤ) (o : AccessMode)
      → Inv s
      → t < threads
      → EndsIn IsProper Inv (manager.store s t a x o)
  pub compare_and_swap :
      (s : S) (t a : ℕ) (x y : ℤ) (o : AccessMode)
      → Inv s
      → t < threads
      → EndsIn IsProper Inv (manager.compare_and_swap s t a x y o)
  pub fetch_and_increment :
      (s : S) (t a : ℕ) (i : ℤ) (o : AccessMode)
      → Inv s
      → t < threads
      → EndsIn IsProper Inv (manager.fetch_and_increment s t a i o)
  pub fence :
      (s : S) (t : ℕ) (o : AccessMode)
      → Inv s
      → t < threads
      → EndsIn IsProper Inv (manager.fence s t o)
  pub internal_update :
      (s : S) → Inv s → EndsIn IsProper (λ (r : Bool × S). Inv r.1) (manager.internal_update s)

-- The labels of the program lie in it, and so does the position or it is at the end.
pub record IsValid (th : Thread) : Type 0 where
  pub closed : IsClosed th.program
  pub position : th.current_instruction ≤ Program.size th.program

-- A valid thread after a step: the same program, number and count of registers.
pub record Follows (th th' : Thread) : Type 0 where
  pub valid : IsValid th'
  pub program : th'.program ≡ th.program
  pub id : th'.id ≡ th.id
  pub registers : length th'.local_storage ≡ length th.local_storage

pub at_lem {ℓ} : {A : Type ℓ} (xs : List A) (i : ℕ) → EndsIn IsProper (λ (x : A). Unit) (at xs i)
at_lem xs i = elim (Option-cases (get_elem? xs i)) [ inl e ↦ rw e tt | inr (x, e) ↦ rw e tt ]

pub set_at_lem :
    (xs : Storage) (i : ℕ) (v : ℤ)
    → EndsIn IsProper (λ (ys : Storage). length ys ≡ length xs) (set_at xs i v)
set_at_lem xs i v = elim (Option-cases (get_elem? xs i)) [
  | inl e ↦ rw e tt
  | inr (x, e) ↦ rw e (length-set xs i v)
]

int32_lem :
    (a : ℤ) → EndsIn IsProper (λ (b : ℤ). Unit) (if fits32 a then ok a else err Fault.overflow)
int32_lem a = elim (Bool-cases (fits32 a)) [ inl e ↦ rw e tt | inr e ↦ rw e tt ]

pub apply_binary_operation_lem :
    (op : BinaryOperation) (a b : ℤ)
    → EndsIn IsProper (λ (c : ℤ). Unit) (apply_binary_operation op a b)
unfolding add32 sub32 mul32 div32
apply_binary_operation_lem BinaryOperation.addition a b =
    int32_lem (sub_ℕ (pos_part a + pos_part b) (neg_part a + neg_part b))
apply_binary_operation_lem BinaryOperation.subtraction a b =
    int32_lem (sub_ℕ (pos_part a + neg_part b) (neg_part a + pos_part b))
apply_binary_operation_lem BinaryOperation.multiplication a b = int32_lem (
    sub_ℕ (pos_part a * pos_part b + neg_part a * neg_part b)
      (pos_part a * neg_part b + neg_part a * pos_part b))
apply_binary_operation_lem BinaryOperation.division a b = elim (Bool-cases (b ==ℤ pos 0)) [
  | inl e ↦ rw e tt
  | inr e ↦ rw e (
      int32_lem (
        sub_ℕ (pos_part a / pos_part b + neg_part a / neg_part b)
          (pos_part a / neg_part b + neg_part a / pos_part b)))
]

pub get_label_mapping_lem :
    (p : Program) (label : ℕ)
    → IsClosed p
    → EndsIn IsProper (λ (i : ℕ). i ≤ Program.size p) (get_label_mapping p label)
get_label_mapping_lem p label closed = elim (Option-cases (find_label p.label_mapping label)) [
  | inl e ↦ rw e tt
  | inr (i, e) ↦ rw e (find_label_lem (Program.size p) p.label_mapping label closed e)
]

module _ {S : Type 0} (manager : StorageManager S) (threads : ℕ) (Inv : S → Type 0)
    (behaves : Behaves manager threads Inv) where
  -- The parts of a thread after a step.
  abbrev Steps : Thread → ℕ × Storage × S → Type 0
  Steps th r = (r.0 ≤ Program.size th.program) × (length r.1 ≡ length th.local_storage) × Inv r.2

  apply_lem :
      (th : Thread) (i : Instruction) (s : S)
      → IsClosed th.program
      → th.current_instruction < Program.size th.program
      → th.id < threads
      → Inv s
      → EndsIn IsProper (Steps th) (apply manager th i s)
  unfolding apply
  apply_lem th (Instruction.store_const_in_register r x) s closed here id inv =
      >>=-EndsIn IsProper _ (Steps th) (set_at th.local_storage r x) _
        (set_at_lem th.local_storage r x) (λ v n. (omega arith, n, inv))
  apply_lem th (Instruction.store_expr_in_register r a op b) s closed here id inv =
      >>=-EndsIn IsProper _ (Steps th) (at th.local_storage a) _ (at_lem th.local_storage a) (λ x _.
        >>=-EndsIn IsProper _ (Steps th) (at th.local_storage b) _ (at_lem th.local_storage b)
          (λ y _.
            >>=-EndsIn IsProper _ (Steps th) (apply_binary_operation op x y) _
              (apply_binary_operation_lem op x y)
              (λ z _.
                >>=-EndsIn IsProper _ (Steps th) (set_at th.local_storage r z) _
                  (set_at_lem th.local_storage r z) (λ v n. (omega arith, n, inv)))))
  apply_lem th (Instruction.goto r label) s closed here id inv =
      >>=-EndsIn IsProper _ (Steps th) (at th.local_storage r) _ (at_lem th.local_storage r) (λ c _.
        >>=-EndsIn IsProper (λ (i : ℕ). i ≤ Program.size th.program) (Steps th) _ _
          (branch (c ==ℤ pos 0)) (λ i h. (h, refl, inv)))
    where
      branch :
          (b : Bool)
          → EndsIn IsProper
              (λ (i : ℕ). i ≤ Program.size th.program)
              (if b then ok (suc th.current_instruction) else get_label_mapping th.program label)
      branch true = omega arith
      branch false = get_label_mapping_lem th.program label closed
  apply_lem th (Instruction.load mode a r) s closed here id inv =
      >>=-EndsIn IsProper _ (Steps th) (at th.local_storage a) _ (at_lem th.local_storage a) (λ x _.
        >>=-EndsIn IsProper _ (Steps th) (manager.load s th.id (to_size x) (to_storage mode)) _
          (behaves.load s th.id (to_size x) (to_storage mode) inv id)
          (λ read inv'.
            >>=-EndsIn IsProper _ (Steps th) (set_at th.local_storage r read.0) _
              (set_at_lem th.local_storage r read.0) (λ v n. (omega arith, n, inv'))))
  apply_lem th (Instruction.store mode a r) s closed here id inv =
      >>=-EndsIn IsProper _ (Steps th) (at th.local_storage a) _ (at_lem th.local_storage a) (λ x _.
        >>=-EndsIn IsProper _ (Steps th) (at th.local_storage r) _ (at_lem th.local_storage r)
          (λ y _.
            >>=-EndsIn IsProper Inv (Steps th)
              (manager.store s th.id (to_size x) y (to_storage mode)) _
              (behaves.store s th.id (to_size x) y (to_storage mode) inv id)
              (λ s' inv'. (omega arith, refl, inv'))))
  apply_lem th (Instruction.compare_and_swap mode a r r') s closed here id inv =
      >>=-EndsIn IsProper _ (Steps th) (at th.local_storage a) _ (at_lem th.local_storage a) (λ x _.
        >>=-EndsIn IsProper _ (Steps th) (at th.local_storage r) _ (at_lem th.local_storage r)
          (λ y _.
            >>=-EndsIn IsProper _ (Steps th) (at th.local_storage r') _ (at_lem th.local_storage r')
              (λ z _.
                >>=-EndsIn IsProper Inv (Steps th)
                  (manager.compare_and_swap s th.id (to_size x) y z (to_storage mode)) _
                  (behaves.compare_and_swap s th.id (to_size x) y z (to_storage mode) inv id)
                  (λ s' inv'. (omega arith, refl, inv')))))
  apply_lem th (Instruction.fetch_and_increment mode a r) s closed here id inv =
      >>=-EndsIn IsProper _ (Steps th) (at th.local_storage a) _ (at_lem th.local_storage a) (λ x _.
        >>=-EndsIn IsProper _ (Steps th) (at th.local_storage r) _ (at_lem th.local_storage r)
          (λ y _.
            >>=-EndsIn IsProper Inv (Steps th)
              (manager.fetch_and_increment s th.id (to_size x) y (to_storage mode)) _
              (behaves.fetch_and_increment s th.id (to_size x) y (to_storage mode) inv id)
              (λ s' inv'. (omega arith, refl, inv'))))
  apply_lem th (Instruction.fence mode) s closed here id inv =
      >>=-EndsIn IsProper Inv (Steps th) (manager.fence s th.id (to_storage mode)) _
        (behaves.fence s th.id (to_storage mode) inv id) (λ s' inv'. (omega arith, refl, inv'))

  -- A valid thread that is one of the run's evaluates an instruction exactly if it has not finished,
  -- and is then valid, with the same program, number and count of registers; a thread that has
  -- finished changes nothing. The step ends at a proper fault otherwise: the instruction is always
  -- there.
  pub evaluate_instruction-Follows :
      (th : Thread) (s : S)
      → IsValid th
      → th.id < threads
      → Inv s
      → EndsIn IsProper
          (λ (r : Bool × Thread × S).
            (r.0 ≡ not (is_finished th))
            × Follows th r.1
            × Inv r.2
            × (is_finished th ≡ true → (r.1 ≡ th) × (r.2 ≡ s)))
          (evaluate_instruction manager th s)
  unfolding evaluate_instruction evaluate_next
  evaluate_instruction-Follows th s v id inv = elim (Bool-cases (is_finished th)) [
    | inl e ↦ rw e (
      refl,
      record { valid = v; program = refl; id = refl; registers = refl },
      inv,
      λ _. (refl, refl),
    )
    | inr e ↦
        let here : th.current_instruction < Program.size th.program =
          ground (arith, e, v.position) in
        let (i, f) = get_elem?-lt th.program.program th.current_instruction here in
        rw (e, f)
          (>>=-EndsIn IsProper (Steps th) _ (apply manager th i s) _
            (apply_lem th i s v.closed here id inv)
            (λ r h. (
              refl,
              record {
                valid = record { closed = v.closed; position = h.0 };
                program = refl;
                id = refl;
                registers = h.1;
              },
              h.2,
              λ k. absurd (cc),
            )))
  ]
