-- ===== src/Program/RoundTrip.antt =====
-- The parser on the lines that `str` prints.
use weak_memory_models_mock.Base.{
  ℕ, ◌<◌, ◌^◌, ◌≡◌, refl, ap, ◌∙◌, true, false, Option, none, some, fits32, List, [], ◌∷◌, ◌++◌,
  append_assoc, ◌==◌, ltb, length, arith, Bytes, codes, words, first_word, words-append, All-append,
  sym, print_size, print_int, print_size-IsWord,
}
use weak_memory_models_mock.Program.{Instruction}
use weak_memory_models_mock.Program.Names.{Command}
use weak_memory_models_mock.Program.Tokens.{
  tokens, words-str, IsLine, str-IsLine, IsWord-IsLine, IsCode, str-IsCode, print_size-IsCode,
  tokens-length,
}
use weak_memory_models_mock.Program.Printer.{str, bin_operation}
use weak_memory_models_mock.Program.Parser.{
  Message, Parsed, throws, parsed, ◌>>=◌, parse_tokens, try_parse_label, parse_store_in_register,
  parse_if, parse_compare_and_swap, parse_fence, parse_command, parse_after_label,
  parse_instruction, parse_line_tokens, parse_line,
}
use weak_memory_models_mock.Program.Parts.{
  try_parse_label-print_size, parse_label-print_size, try_parse_label-label, label-IsWord,
  command_of-print_size, parse_register-print_size, parse_register_with_mem_address-print_size,
  parse_constant-print_int, parse_memory_access_mode-to_string,
  parse_binary_operation-bin_operation, parse_access-print_size,
}

-- The numbers of an instruction are values of their types.
abbrev pub Fits : Instruction → Type 0
Fits (Instruction.store_const_in_register r value) = (r < 2 ^ 64) × (fits32 value ≡ true)
Fits (Instruction.store_expr_in_register r left op right) =
    (r < 2 ^ 64) × (left < 2 ^ 64) × (right < 2 ^ 64)
Fits (Instruction.goto r label) = (r < 2 ^ 64) × (label < 2 ^ 64)
Fits (Instruction.load mode a r) = (a < 2 ^ 64) × (r < 2 ^ 64)
Fits (Instruction.store mode a r) = (a < 2 ^ 64) × (r < 2 ^ 64)
Fits (Instruction.compare_and_swap mode a x y) = (a < 2 ^ 64) × (x < 2 ^ 64) × (y < 2 ^ 64)
Fits (Instruction.fetch_and_increment mode a i) = (a < 2 ^ 64) × (i < 2 ^ 64)
Fits (Instruction.fence mode) = Unit

parse_line-words :
    (text : Bytes)
    → IsCode text
    → ltb 6 (length (words text)) ≡ false
    → parse_line text ≡ parse_line_tokens (words text)
unfolding parse_line parse_tokens
parse_line-words [] h e = unfold words first_word parse_line_tokens in refl
parse_line-words (c ∷ text) h e = rw (h.0, e)

-- The words of a line behind its label.
abbrev parse_words : List Bytes → Parsed Instruction
parse_words [] = throws (Message.bad_command Command.other_command)
parse_words (first ∷ args) = parse_instruction first args

parse_words-print_size :
    (r : ℕ) (args : List Bytes)
    → parse_words (print_size r ∷ args) ≡ parse_store_in_register (print_size r ∷ args)
parse_words-print_size r args = rw (command_of-print_size r) (unfold parse_command in refl)

-- What the parser makes of a printed instruction.
abbrev pub reprint : Instruction → Parsed Instruction
reprint (Instruction.fetch_and_increment mode a i) =
    throws (Message.bad_command Command.other_command)
reprint i = parsed i

parse_words-tokens : (i : Instruction) → Fits i → parse_words (tokens i) ≡ reprint i
parse_words-tokens (Instruction.store_const_in_register r value) h =
    rw (parse_words-print_size r (codes "=" ∷ print_int value ∷ [])) (
      unfold parse_store_in_register in
      rw (parse_register-print_size r h.0, parse_constant-print_int value h.1))
parse_words-tokens (Instruction.store_expr_in_register r left op right) h =
    rw
      (parse_words-print_size r
        (codes "=" ∷ print_size left ∷ bin_operation op ∷ print_size right ∷ []))
      (unfold parse_store_in_register in
        rw (
          parse_register-print_size r h.0,
          parse_register-print_size left h.1,
          parse_binary_operation-bin_operation op,
          parse_register-print_size right h.2,
        ))
parse_words-tokens (Instruction.goto r label) h =
    unfold parse_command parse_if in
    rw (parse_register-print_size r h.0, parse_label-print_size label h.1)
parse_words-tokens (Instruction.load mode a r) h =
    unfold parse_command in
    rw (parse_access-print_size Command.load_command Instruction.load mode a r h.0 h.1)
parse_words-tokens (Instruction.store mode a r) h =
    unfold parse_command in
    rw (parse_access-print_size Command.store_command Instruction.store mode a r h.0 h.1)
parse_words-tokens (Instruction.compare_and_swap mode a x y) h =
    unfold parse_command parse_compare_and_swap in
    rw (
      parse_memory_access_mode-to_string mode,
      parse_register_with_mem_address-print_size a h.0,
      parse_register-print_size x h.1,
      parse_register-print_size y h.2,
    )
parse_words-tokens (Instruction.fetch_and_increment mode a i) h =
    unfold parse_command parse_store_in_register in refl
parse_words-tokens (Instruction.fence mode) h =
    unfold parse_command parse_fence in rw (parse_memory_access_mode-to_string mode)

-- The first word of a printed instruction is not taken for a label.
HasNoLabel : List Bytes → Type 0
HasNoLabel [] = ⊥
HasNoLabel (first ∷ args) = try_parse_label first ≡ parsed none

tokens-HasNoLabel : (i : Instruction) → HasNoLabel (tokens i)
unfolding HasNoLabel try_parse_label
tokens-HasNoLabel (Instruction.store_const_in_register r value) = try_parse_label-print_size r
tokens-HasNoLabel (Instruction.store_expr_in_register r left op right) =
    try_parse_label-print_size r
tokens-HasNoLabel (Instruction.goto r label) = refl
tokens-HasNoLabel (Instruction.load mode a r) = refl
tokens-HasNoLabel (Instruction.store mode a r) = refl
tokens-HasNoLabel (Instruction.compare_and_swap mode a x y) = refl
tokens-HasNoLabel (Instruction.fetch_and_increment mode a i) = refl
tokens-HasNoLabel (Instruction.fence mode) = refl

-- A line: an instruction as its `str`, behind a label where there is one.
abbrev pub print_line : Option ℕ → Instruction → Bytes
print_line none i = str i
print_line (some label) i = print_size label ++ (codes ": " ++ str i)

abbrev pub FitsLabel : Option ℕ → Type 0
FitsLabel none = Unit
FitsLabel (some label) = label < 2 ^ 64

parse_line_tokens-unlabelled :
    (texts : List Bytes)
    → HasNoLabel texts
    → parse_line_tokens texts ≡ (parse_words texts >>= λ i. parsed (none, some i))
unfolding HasNoLabel parse_line_tokens parse_after_label
parse_line_tokens-unlabelled [] h = absurd h
parse_line_tokens-unlabelled (first ∷ args) h = rw h

parse_line_tokens-labelled :
    (label : ℕ) (texts : List Bytes)
    → label < 2 ^ 64
    → HasNoLabel texts
    → parse_line_tokens ((print_size label ++ codes ":") ∷ texts)
      ≡ (parse_words texts >>= λ i. parsed (some label, some i))
unfolding HasNoLabel parse_line_tokens parse_after_label
parse_line_tokens-labelled label [] fits h = absurd h
parse_line_tokens-labelled label (first ∷ args) fits h = rw (try_parse_label-label label fits)

-- The words of a line: those of the instruction, behind the label's.
with_label : Option ℕ → List Bytes → List Bytes
with_label none texts = texts
with_label (some label) texts = (print_size label ++ codes ":") ∷ texts

words-print_line :
    (label : Option ℕ) (i : Instruction) → words (print_line label i) ≡ with_label label (tokens i)
unfolding with_label
words-print_line none i = words-str i
words-print_line (some label) i =
    ap words (sym (append_assoc (print_size label) (codes ":") (codes " " ++ str i)))
    ∙ words-append (print_size label ++ codes ":") (str i) (label-IsWord label)
    ∙ ap (◌∷◌ (print_size label ++ codes ":")) (words-str i)

pub print_line-IsCode : (label : Option ℕ) (i : Instruction) → IsCode (print_line label i)
print_line-IsCode none i = str-IsCode i
print_line-IsCode (some label) i = print_size-IsCode label (codes ": " ++ str i)

with_label-few :
    (label : Option ℕ) (texts : List Bytes)
    → ltb 5 (length texts) ≡ false
    → ltb 6 (length (with_label label texts)) ≡ false
unfolding with_label
with_label-few none texts h = ground (arith, h)
with_label-few (some label) texts h = ground (arith, h)

parse_line_tokens-with_label :
    (label : Option ℕ) (texts : List Bytes)
    → FitsLabel label
    → HasNoLabel texts
    → parse_line_tokens (with_label label texts)
      ≡ (parse_words texts >>= λ i. parsed (label, some i))
unfolding with_label
parse_line_tokens-with_label none texts fits h = parse_line_tokens-unlabelled texts h
parse_line_tokens-with_label (some label) texts fits h =
    parse_line_tokens-labelled label texts fits h

pub print_line-IsLine : (label : Option ℕ) (i : Instruction) → IsLine (print_line label i)
print_line-IsLine none i = str-IsLine i
print_line-IsLine (some label) i =
    All-append (λ c. (c == b'\n') ≡ false) (print_size label) (codes ": " ++ str i)
      (IsWord-IsLine (print_size label) (print_size-IsWord label)) (refl, (refl, str-IsLine i))

-- For an instruction whose registers, label and constant are values of their types, `Parser::parseLine`
-- reads what its `str` prints as that instruction; with a label and a colon before it, as the
-- instruction with this label. The text of a fetch-and-increment it refuses either way, as a line of
-- no known command.
pub parse_line-print_line :
    (label : Option ℕ) (i : Instruction)
    → FitsLabel label
    → Fits i
    → parse_line (print_line label i) ≡ (reprint i >>= λ i'. parsed (label, some i'))
parse_line-print_line label i fits h =
    let few : ltb 6 (length (words (print_line label i))) ≡ false =
      rw (words-print_line label i) (with_label-few label (tokens i) (tokens-length i)) in
    parse_line-words (print_line label i) (print_line-IsCode label i) few
    ∙ ap parse_line_tokens (words-print_line label i)
    ∙ parse_line_tokens-with_label label (tokens i) fits (tokens-HasNoLabel i)
    ∙ ap (λ (r : Parsed Instruction). r >>= λ i'. parsed (label, some i')) (parse_words-tokens i h)
