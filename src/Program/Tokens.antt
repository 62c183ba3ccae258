-- ===== src/Program/Tokens.antt =====
-- The words of the lines that `str` prints.
use weak_memory_models_mock.Base.{
  ℕ, ◌≡◌, refl, ap, ◌∙◌, false, List, [], ◌∷◌, ◌++◌, append_assoc, is_space, All-append, All-map,
  ◌==◌, ltb, length, All, arith, Bytes, codes, words, words-join_words, join_words, IsWord,
  is_word-IsWord, print_size, print_int, print_size-cons, print_size-IsWord, print_int-IsWord,
}
use weak_memory_models_mock.Program.{
  MemoryAccessMode, BinaryOperation, Instruction, sequential_consistency, release, acquire,
  release_acquire, relaxed, addition, subtraction, multiplication, division,
}
use weak_memory_models_mock.Program.Printer.{str, to_string, bin_operation}

-- The words of a printed instruction.
abbrev pub tokens : Instruction → List Bytes
tokens (Instruction.store_const_in_register r value) =
    print_size r ∷ codes "=" ∷ print_int value ∷ []
tokens (Instruction.store_expr_in_register r left op right) =
    print_size r ∷ codes "=" ∷ print_size left ∷ bin_operation op ∷ print_size right ∷ []
tokens (Instruction.goto r label) = codes "if" ∷ print_size r ∷ codes "goto" ∷ print_size label ∷ []
tokens (Instruction.load mode a r) =
    codes "load" ∷ to_string mode ∷ (b'#' ∷ print_size a) ∷ print_size r ∷ []
tokens (Instruction.store mode a r) =
    codes "store" ∷ to_string mode ∷ (b'#' ∷ print_size a) ∷ print_size r ∷ []
tokens (Instruction.compare_and_swap mode a x y) =
    codes "cas" ∷ to_string mode ∷ (b'#' ∷ print_size a) ∷ print_size x ∷ print_size y ∷ []
tokens (Instruction.fetch_and_increment mode a i) =
    codes "fei" ∷ to_string mode ∷ (b'#' ∷ print_size a) ∷ print_size i ∷ []
tokens (Instruction.fence mode) = codes "fence" ∷ to_string mode ∷ []

-- The text of an access up to its address, bracketed the other way.
access-join :
    (name mode rest : Bytes)
    → (name ++ mode ++ codes " #") ++ rest ≡ name ++ (mode ++ (codes " #" ++ rest))
access-join name mode rest =
    append_assoc (name ++ mode) (codes " #") rest ∙ append_assoc name mode (codes " #" ++ rest)

pub str-join_words : (i : Instruction) → str i ≡ join_words (tokens i)
unfolding str
str-join_words (Instruction.store_const_in_register r value) = refl
str-join_words (Instruction.store_expr_in_register r left addition right) = refl
str-join_words (Instruction.store_expr_in_register r left subtraction right) = refl
str-join_words (Instruction.store_expr_in_register r left multiplication right) = refl
str-join_words (Instruction.store_expr_in_register r left division right) = refl
str-join_words (Instruction.goto r label) = refl
str-join_words (Instruction.load mode a r) = access-join (codes "load ") (to_string mode) _
str-join_words (Instruction.store mode a r) = access-join (codes "store ") (to_string mode) _
str-join_words (Instruction.compare_and_swap mode a x y) =
    access-join (codes "cas ") (to_string mode) _
str-join_words (Instruction.fetch_and_increment mode a i) =
    access-join (codes "fei ") (to_string mode) _
str-join_words (Instruction.fence mode) = refl

to_string-IsWord : (mode : MemoryAccessMode) → IsWord (to_string mode)
to_string-IsWord sequential_consistency = is_word-IsWord (codes "SEQ_CST") refl
to_string-IsWord release = is_word-IsWord (codes "REL") refl
to_string-IsWord acquire = is_word-IsWord (codes "ACQ") refl
to_string-IsWord release_acquire = is_word-IsWord (codes "REL_ACQ") refl
to_string-IsWord relaxed = is_word-IsWord (codes "RLX") refl

bin_operation-IsWord : (op : BinaryOperation) → IsWord (bin_operation op)
bin_operation-IsWord addition = is_word-IsWord (codes "+") refl
bin_operation-IsWord subtraction = is_word-IsWord (codes "-") refl
bin_operation-IsWord multiplication = is_word-IsWord (codes "*") refl
bin_operation-IsWord division = is_word-IsWord (codes "/") refl

-- A line that is no comment and does not begin as the separator of threads does.
abbrev pub IsCode : Bytes → Type 0
IsCode [] = Unit
IsCode (c ∷ text) = ((c == b'/') ≡ false) × ((c == b'M') ≡ false)

IsWord-All : (word : Bytes) → IsWord word → All (λ c. is_space c ≡ false) word
IsWord-All [] h = absurd h
IsWord-All (c ∷ word) h = h

-- A text without a line break.
abbrev pub IsLine : Bytes → Type 0
IsLine text = All (λ c. (c == b'\n') ≡ false) text

pub IsWord-IsLine : (word : Bytes) → IsWord word → IsLine word
IsWord-IsLine word h =
    All-map (λ c. is_space c ≡ false) _ word (λ c e. ground (arith, e)) (IsWord-All word h)

join_words-IsLine : (texts : List Bytes) → All IsWord texts → IsLine (join_words texts)
join_words-IsLine [] h = tt
join_words-IsLine (word ∷ []) h = IsWord-IsLine word h.0
join_words-IsLine (word ∷ next ∷ texts) h =
    All-append (λ c. (c == b'\n') ≡ false) word (b' ' ∷ join_words (next ∷ texts))
      (IsWord-IsLine word h.0) (refl, join_words-IsLine (next ∷ texts) h.1)

address-IsWord : (a : ℕ) → IsWord (b'#' ∷ print_size a)
address-IsWord a =
    let (d, rest, q, digit, all) = print_size-cons a in
    let word = rw q at (print_size-IsWord a) in rw q (refl, word)

pub print_size-IsCode : (n : ℕ) (text : Bytes) → IsCode (print_size n ++ text)
print_size-IsCode n text =
    let (d, rest, q, digit, all) = print_size-cons n in
    rw q (ground (arith, digit), ground (arith, digit))

pub tokens-All : (i : Instruction) → All IsWord (tokens i)
tokens-All (Instruction.store_const_in_register r value) =
    (print_size-IsWord r, (is_word-IsWord (codes "=") refl, (print_int-IsWord value, tt)))
tokens-All (Instruction.store_expr_in_register r left op right) = (
  print_size-IsWord r,
  (
    is_word-IsWord (codes "=") refl,
    (print_size-IsWord left, (bin_operation-IsWord op, (print_size-IsWord right, tt))),
  ),
)
tokens-All (Instruction.goto r label) = (
  is_word-IsWord (codes "if") refl,
  (print_size-IsWord r, (is_word-IsWord (codes "goto") refl, (print_size-IsWord label, tt))),
)
tokens-All (Instruction.load mode a r) = (
  is_word-IsWord (codes "load") refl,
  (to_string-IsWord mode, (address-IsWord a, (print_size-IsWord r, tt))),
)
tokens-All (Instruction.store mode a r) = (
  is_word-IsWord (codes "store") refl,
  (to_string-IsWord mode, (address-IsWord a, (print_size-IsWord r, tt))),
)
tokens-All (Instruction.compare_and_swap mode a x y) = (
  is_word-IsWord (codes "cas") refl,
  (to_string-IsWord mode, (address-IsWord a, (print_size-IsWord x, (print_size-IsWord y, tt)))),
)
tokens-All (Instruction.fetch_and_increment mode a i) = (
  is_word-IsWord (codes "fei") refl,
  (to_string-IsWord mode, (address-IsWord a, (print_size-IsWord i, tt))),
)
tokens-All (Instruction.fence mode) =
    (is_word-IsWord (codes "fence") refl, (to_string-IsWord mode, tt))

pub str-IsLine : (i : Instruction) → IsLine (str i)
str-IsLine i = rw (str-join_words i) (join_words-IsLine (tokens i) (tokens-All i))

pub words-str : (i : Instruction) → words (str i) ≡ tokens i
words-str i = ap words (str-join_words i) ∙ words-join_words (tokens i) (tokens-All i)

pub str-IsCode : (i : Instruction) → IsCode (str i)
unfolding str
str-IsCode (Instruction.store_const_in_register r value) = print_size-IsCode r _
str-IsCode (Instruction.store_expr_in_register r left op right) = print_size-IsCode r _
str-IsCode (Instruction.goto r label) = (refl, refl)
str-IsCode (Instruction.load mode a r) = (refl, refl)
str-IsCode (Instruction.store mode a r) = (refl, refl)
str-IsCode (Instruction.compare_and_swap mode a x y) = (refl, refl)
str-IsCode (Instruction.fetch_and_increment mode a i) = (refl, refl)
str-IsCode (Instruction.fence mode) = (refl, refl)

pub tokens-length : (i : Instruction) → ltb 5 (length (tokens i)) ≡ false
tokens-length (Instruction.store_const_in_register r value) = refl
tokens-length (Instruction.store_expr_in_register r left op right) = refl
tokens-length (Instruction.goto r label) = refl
tokens-length (Instruction.load mode a r) = refl
tokens-length (Instruction.store mode a r) = refl
tokens-length (Instruction.compare_and_swap mode a x y) = refl
tokens-length (Instruction.fetch_and_increment mode a i) = refl
tokens-length (Instruction.fence mode) = refl
