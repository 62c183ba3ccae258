-- ===== src/Program/Parser.antt =====
-- src/Program/Parser.h and src/Program/src/Parser.cpp.
use weak_memory_models_mock.Base.{
  ℕ, not, ◌||◌, Option, none, some, ℤ, List, [], ◌∷◌, ltb, ◌==◌, if◌then◌else◌, length, Bytes,
  codes, same_text, find_text, words, extract_size, extract_int,
}
use weak_memory_models_mock.Program.{MemoryAccessMode, BinaryOperation, Instruction}
use weak_memory_models_mock.Program.Names.{
  Command, string_to_command, string_to_mode, char_to_bin_operation,
}

-- What the functions of the parser throw, by its message.
pub data Message : Type 0 where
  too_many_tokens : Message  -- "Too many tokens"
  bad_register : Message  -- "Couldn't parse register"
  bad_constant : Message  -- "Couldn't parse constant value"
  bad_mode : Message  -- "Couldn't parse memory access mode"
  bad_label : Message  -- "Couldn't parse label"
  bad_operation : Message  -- "Couldn't parse binary operation"
  bad_command : Command → Message  -- "Couldn't parse if", and so on; "Failed to parse" for Other
  duplicate_label : ℕ → Message  -- "Duplicate label `…`"

-- A value, or what is thrown.
pub data Parsed {ℓ} (A : Type ℓ) : Type ℓ where
  throws : Message → Parsed A
  parsed : A → Parsed A

infixl 5 ◌>>=◌
abbrev pub ◌>>=◌ {ℓ κ} : {A : Type ℓ} {B : Type κ} → Parsed A → (A → Parsed B) → Parsed B
throws message >>= next = throws message
parsed a >>= next = next a

abbrev pub or_throw {ℓ} : {A : Type ℓ} → Option A → Message → Parsed A
or_throw none message = throws message
or_throw (some a) message = parsed a

-- With `expectedMax`, the one call's argument.
unfoldable pub parse_tokens : Bytes → ℕ → Parsed (List Bytes)
parse_tokens line expected_max =
    if ltb expected_max (length (words line))
    then throws Message.too_many_tokens
    else parsed (words line)

unfoldable pub parse_register : Bytes → Parsed ℕ
parse_register text = or_throw (extract_size text) Message.bad_register

unfoldable pub parse_register_with_mem_address : Bytes → Parsed ℕ
parse_register_with_mem_address [] = throws Message.bad_register
parse_register_with_mem_address (c ∷ text) =
    if not (c == b'#')
    then throws Message.bad_register
    else or_throw (extract_size text) Message.bad_register

unfoldable pub parse_constant : Bytes → Parsed ℤ
parse_constant text = or_throw (extract_int text) Message.bad_constant

unfoldable pub parse_memory_access_mode : Bytes → Parsed MemoryAccessMode
parse_memory_access_mode text = or_throw (find_text string_to_mode text) Message.bad_mode

unfoldable pub parse_label : Bytes → Parsed ℕ
parse_label text = or_throw (extract_size text) Message.bad_label

-- `string.back()` and the string before it, for a string that is not empty.
abbrev pub split_back : ℕ → Bytes → Bytes × ℕ
split_back c [] = ([], c)
split_back c (d ∷ text) = let (front, back) = split_back d text in (c ∷ front, back)

unfoldable pub try_parse_label : Bytes → Parsed (Option ℕ)
try_parse_label [] = parsed none
try_parse_label (c ∷ text) =
    if ltb (length (c ∷ text)) 2 || not ((split_back c text).1 == b':')
    then parsed none
    else (parse_label (split_back c text).0 >>= λ label. parsed (some label))

-- The keys of the map are single characters, so another text has none.
unfoldable pub parse_binary_operation : Bytes → Parsed BinaryOperation
parse_binary_operation text = or_throw (find_text char_to_bin_operation text) Message.bad_operation

-- The `switch` on the number of tokens, and the test before it.
unfoldable pub parse_store_in_register : List Bytes → Parsed Instruction
parse_store_in_register (r ∷ sign ∷ constant ∷ []) =
    if not (same_text sign (codes "="))
    then throws (Message.bad_command Command.other_command)
    else (do
      store_address ← parse_register r
      value ← parse_constant constant
      parsed (Instruction.store_const_in_register store_address value))
parse_store_in_register (r ∷ sign ∷ left ∷ operation ∷ right ∷ []) =
    if not (same_text sign (codes "="))
    then throws (Message.bad_command Command.other_command)
    else (do
      store_address ← parse_register r
      left_register ← parse_register left
      op ← parse_binary_operation operation
      right_register ← parse_register right
      parsed (Instruction.store_expr_in_register store_address left_register op right_register))
parse_store_in_register _ = throws (Message.bad_command Command.other_command)

unfoldable pub parse_if : List Bytes → Parsed Instruction
parse_if (r ∷ word ∷ label ∷ []) =
    if not (same_text word (codes "goto"))
    then throws (Message.bad_command Command.if_command)
    else (do
      condition_register ← parse_register r
      label_id ← parse_label label
      parsed (Instruction.goto condition_register label_id))
parse_if _ = throws (Message.bad_command Command.if_command)

-- The three commands of a mode, an address and a register differ in the instruction that they make.
unfoldable pub parse_access :
    Command → (MemoryAccessMode → ℕ → ℕ → Instruction) → List Bytes → Parsed Instruction
parse_access kind make (mode ∷ address ∷ r ∷ []) = do
  m ← parse_memory_access_mode mode
  address_register ← parse_register_with_mem_address address
  second_register ← parse_register r
  parsed (make m address_register second_register)
parse_access kind make _ = throws (Message.bad_command kind)

unfoldable pub parse_compare_and_swap : List Bytes → Parsed Instruction
parse_compare_and_swap (mode ∷ address ∷ expected ∷ new ∷ []) = do
  m ← parse_memory_access_mode mode
  address_register ← parse_register_with_mem_address address
  expected_val_register ← parse_register expected
  new_val_register ← parse_register new
  parsed (Instruction.compare_and_swap m address_register expected_val_register new_val_register)
parse_compare_and_swap _ = throws (Message.bad_command Command.compare_and_swap_command)

unfoldable pub parse_fence : List Bytes → Parsed Instruction
parse_fence (mode ∷ []) = parse_memory_access_mode mode >>= λ m. parsed (Instruction.fence m)
parse_fence _ = throws (Message.bad_command Command.fence_command)

-- The `switch` on the command, which is the first token.
unfoldable pub parse_command : Command → Bytes → List Bytes → Parsed Instruction
parse_command Command.if_command first args = parse_if args
parse_command Command.load_command first args =
    parse_access Command.load_command Instruction.load args
parse_command Command.store_command first args =
    parse_access Command.store_command Instruction.store args
parse_command Command.compare_and_swap_command first args = parse_compare_and_swap args
parse_command Command.fetch_and_increment_command first args =
    parse_access Command.fetch_and_increment_command Instruction.fetch_and_increment args
parse_command Command.fence_command first args = parse_fence args
parse_command Command.other_command first args = parse_store_in_register (first ∷ args)

abbrev pub command_of : Bytes → Command
command_of text = elim (find_text string_to_command text) [
  | some command ↦ command
  | none ↦ Command.other_command
]

abbrev pub parse_instruction : Bytes → List Bytes → Parsed Instruction
parse_instruction first args = parse_command (command_of first) first args

-- A line's label and its instruction, where it has them.
abbrev pub Line : Type 0
Line = Option ℕ × Option Instruction

unfoldable pub parse_after_label : Option ℕ → Bytes → List Bytes → Parsed Line
parse_after_label none first args = parse_instruction first args >>= λ i. parsed (none, some i)
parse_after_label (some label) first [] = parsed (some label, none)
parse_after_label (some label) first (second ∷ args) =
    parse_instruction second args >>= λ i. parsed (some label, some i)

unfoldable pub parse_line_tokens : List Bytes → Parsed Line
parse_line_tokens [] = parsed (none, none)
parse_line_tokens (first ∷ args) = do
  label ← try_parse_label first
  parse_after_label label first args

unfoldable pub parse_line : Bytes → Parsed Line
parse_line [] = parsed (none, none)
parse_line (c ∷ text) =
    if c == b'/'
    then parsed (none, none)
    else (parse_tokens (c ∷ text) 6 >>= λ tokens. parse_line_tokens tokens)
