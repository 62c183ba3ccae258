-- ===== src/Program/Parts.antt =====
-- The parts of a line: what the functions of the parser make of a printed number, mode or operation.
use weak_memory_models_mock.Base.{
  ℕ, ◌<◌, ◌^◌, ◌≡◌, refl, true, false, none, some, ℤ, fits32, [], ◌∷◌, ◌++◌, ◌==◌, ltb, length, All,
  arith, Bytes, codes, IsWord, is_space, All-append, length-append, print_size, print_int,
  print_size-cons, print_size-IsWord, extract_size_only, extract_int-print_int, IsDigit,
}
use weak_memory_models_mock.Program.{
  MemoryAccessMode, BinaryOperation, Instruction, sequential_consistency, release, acquire,
  release_acquire, relaxed, addition, subtraction, multiplication, division,
}
use weak_memory_models_mock.Program.Names.{Command}
use weak_memory_models_mock.Program.Printer.{to_string, bin_operation}
use weak_memory_models_mock.Program.Parser.{
  parsed, split_back, parse_register, parse_register_with_mem_address, parse_constant,
  parse_memory_access_mode, parse_label, try_parse_label, parse_binary_operation, parse_access,
  command_of,
}

-- A number is not taken for a label or for a command.
pub split_back-All :
    (P : ℕ → Type 0) (c : ℕ) (text : Bytes) → P c → All P text → P (split_back c text).1
split_back-All P c [] p all = p
split_back-All P c (d ∷ text) p all = split_back-All P d text all.0 all.1

pub try_parse_label-print_size : (n : ℕ) → try_parse_label (print_size n) ≡ parsed none
try_parse_label-print_size n =
    let (d, rest, q, digit, all) = print_size-cons n in
    let last = split_back-All IsDigit d rest digit all in
    let colon : ((split_back d rest).1 == b':') ≡ false = ground (arith, last) in
    rw q (unfold try_parse_label in ground (arith, colon))

pub parse_label-print_size : (n : ℕ) → n < 2 ^ 64 → parse_label (print_size n) ≡ parsed n
unfolding parse_label
parse_label-print_size n h = rw (extract_size_only n h)

pub split_back-append :
    (c : ℕ) (text : Bytes) (d : ℕ) → split_back c (text ++ (d ∷ [])) ≡ (c ∷ text, d)
split_back-append c [] d = refl
split_back-append c (e ∷ text) d = rw (split_back-append e text d)

pub label-length : (d : ℕ) (text : Bytes) → ltb (length (d ∷ (text ++ codes ":"))) 2 ≡ false
label-length d text = let size = length-append text (codes ":") in ground (arith, size)

pub try_parse_label-label :
    (n : ℕ) → n < 2 ^ 64 → try_parse_label (print_size n ++ codes ":") ≡ parsed (some n)
try_parse_label-label n h =
    let (d, rest, q, _, _) = print_size-cons n in
    let read : parse_label (d ∷ rest) ≡ parsed n = rw q at (parse_label-print_size n h) in
    rw q (unfold try_parse_label in rw (label-length d rest, split_back-append d rest b':', read))

pub label-IsWord : (n : ℕ) → IsWord (print_size n ++ codes ":")
label-IsWord n =
    let (d, rest, q, _, _) = print_size-cons n in
    let word = rw q at (print_size-IsWord n) in
    rw q (All-append (λ c. is_space c ≡ false) (d ∷ rest) (codes ":") word (refl, tt))

pub command_of-print_size : (n : ℕ) → command_of (print_size n) ≡ Command.other_command
command_of-print_size n =
    let (d, rest, q, digit, all) = print_size-cons n in rw q (ground (arith, digit))

-- The parts of an instruction are read back.
pub parse_register-print_size : (n : ℕ) → n < 2 ^ 64 → parse_register (print_size n) ≡ parsed n
unfolding parse_register
parse_register-print_size n h = rw (extract_size_only n h)

pub parse_register_with_mem_address-print_size :
    (n : ℕ) → n < 2 ^ 64 → parse_register_with_mem_address (b'#' ∷ print_size n) ≡ parsed n
unfolding parse_register_with_mem_address
parse_register_with_mem_address-print_size n h = rw (extract_size_only n h)

pub parse_constant-print_int : (a : ℤ) → fits32 a ≡ true → parse_constant (print_int a) ≡ parsed a
unfolding parse_constant
parse_constant-print_int a h = rw (extract_int-print_int a h)

pub parse_memory_access_mode-to_string :
    (mode : MemoryAccessMode) → parse_memory_access_mode (to_string mode) ≡ parsed mode
unfolding parse_memory_access_mode
parse_memory_access_mode-to_string sequential_consistency = refl
parse_memory_access_mode-to_string release = refl
parse_memory_access_mode-to_string acquire = refl
parse_memory_access_mode-to_string release_acquire = refl
parse_memory_access_mode-to_string relaxed = refl

pub parse_binary_operation-bin_operation :
    (op : BinaryOperation) → parse_binary_operation (bin_operation op) ≡ parsed op
unfolding parse_binary_operation
parse_binary_operation-bin_operation addition = refl
parse_binary_operation-bin_operation subtraction = refl
parse_binary_operation-bin_operation multiplication = refl
parse_binary_operation-bin_operation division = refl

pub parse_access-print_size :
    (kind : Command) (make : MemoryAccessMode → ℕ → ℕ → Instruction) (mode : MemoryAccessMode)
    (a r : ℕ)
    → a < 2 ^ 64
    → r < 2 ^ 64
    → parse_access kind make (to_string mode ∷ (b'#' ∷ print_size a) ∷ print_size r ∷ [])
      ≡ parsed (make mode a r)
unfolding parse_access
parse_access-print_size kind make mode a r ha hr = rw (
  parse_memory_access_mode-to_string mode,
  parse_register_with_mem_address-print_size a ha,
  parse_register-print_size r hr,
)
