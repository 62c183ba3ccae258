-- ===== src/Program/Tests.antt =====
-- Lines and texts that are parsed, with those of test/ParserTest.cpp.
use weak_memory_models_mock.Base.{
  ◌<◌, ◌^◌, ◌≡◌, refl, none, some, pos, negsuc, List, [], ◌∷◌, length, All, arith, Bytes, codes,
  lines, ◌-◌, first_word, words, read_digits, read_magnitude, read_number, extract_size,
  extract_int,
}
use weak_memory_models_mock.Program.{Instruction, MemoryAccessMode, BinaryOperation, IsClosed}
use weak_memory_models_mock.Program.Names.{Command}
use weak_memory_models_mock.Program.Parser.{
  Message, throws, parsed, parse_line, parse_tokens, parse_register,
  parse_register_with_mem_address, parse_constant, parse_memory_access_mode, parse_label,
  try_parse_label, parse_binary_operation, parse_store_in_register, parse_if, parse_access,
  parse_command, parse_after_label, parse_line_tokens,
}
use weak_memory_models_mock.Program.RoundTrip.{print_line, parse_line-print_line}
use weak_memory_models_mock.Program.Stream.{
  parsing_error, done, start, parse_from_string, add_label, add_line, read_line, parse_lines,
  parse_from_stream,
}
use weak_memory_models_mock.Program.Refusal.{
  Explains, Gives, parse_from_string-Explains, parse_from_string-IsClosed,
}
use weak_memory_models_mock.Program.SourceText.{Source, print_lines, print_sources}
use weak_memory_models_mock.Program.Sources.{AreSources, parse_from_string-print_sources}

abbrev swap : Instruction
swap = Instruction.compare_and_swap MemoryAccessMode.acquire 1 2 3

abbrev two : Instruction
two = Instruction.store_const_in_register 1 (pos 2)

-- "7: cas ACQ #1 2 3"
parse_line-print_line_example : parse_line (print_line (some 7) swap) ≡ parsed (some 7, some swap)
parse_line-print_line_example =
    parse_line-print_line (some 7) swap (omega arith) ((omega arith), (omega arith), (omega arith))

-- The second line has no command.
abbrev refused : Bytes
refused = codes "1 = 2\n2 -> 3\n3 = 4\n"

parse_from_string-Explains_example : Explains 0 start (lines refused) (parse_from_string refused)
parse_from_string-Explains_example = parse_from_string-Explains refused

parse_from_string-IsClosed_test :
    Gives (λ programs. All IsClosed programs × (0 < length programs)) (parse_from_string refused)
parse_from_string-IsClosed_test = parse_from_string-IsClosed refused

-- A loop of one thread, and a thread that writes.
abbrev sources : List Source
sources =
    ((none, two) ∷ (some 5, Instruction.goto 1 5) ∷ [])
    ∷ ((none, Instruction.store MemoryAccessMode.release 0 1) ∷ [])
    ∷ []

sources-AreSources : AreSources sources
sources-AreSources = (
  omega arith,
  (
    tt,
    ((omega arith), refl),
    refl,
    tt,
    ((omega arith), ((omega arith), (omega arith)), refl, refl, tt),
  ),
  (tt, ((omega arith), (omega arith)), refl, tt, tt),
)

parse_from_string-print_sources_example :
    parse_from_string (print_lines (print_sources sources))
    ≡ done (
        record { program = two ∷ Instruction.goto 1 5 ∷ []; label_mapping = (5, 1) ∷ [] }
        ∷ record {
          program = Instruction.store MemoryAccessMode.release 0 1 ∷ [];
          label_mapping = [];
        }
        ∷ [])
parse_from_string-print_sources_example = parse_from_string-print_sources sources sources-AreSources

-- The lines of test/ParserTest.cpp, and some at the bounds: what follows the digits of a number is not
-- looked at, and a minus before a register wraps.
parse_line_tests :
    (parse_line (codes "1:") ≡ parsed (some 1, none))
    × (parse_line (codes "1 = 2 + 3")
        ≡ parsed (none, some (Instruction.store_expr_in_register 1 2 BinaryOperation.addition 3)))
    × (parse_line (codes "1 = 2 -5 6") ≡ throws Message.bad_operation)
    × (parse_line (codes "fai RLX #1 2")
        ≡ parsed (none, some (Instruction.fetch_and_increment MemoryAccessMode.relaxed 1 2)))
    × (parse_line (codes "fei REL_ACQ #1 2") ≡ throws (Message.bad_command Command.other_command))
    × (parse_line (codes "1x = 2y") ≡ parsed (none, some two))
    × (parse_line (codes "if -1 goto 0") ≡ parsed (none, some (Instruction.goto (2 ^ 64 - 1) 0)))
    × (parse_line (codes "0 = -2147483648")
        ≡ parsed (none, some (Instruction.store_const_in_register 0 (negsuc 2147483647))))
    × (parse_line (codes "0 = 2147483648") ≡ throws Message.bad_constant)
unfolding first_word words read_digits read_magnitude read_number extract_size extract_int
    parse_tokens parse_register parse_register_with_mem_address parse_constant
    parse_memory_access_mode parse_label try_parse_label parse_binary_operation
    parse_store_in_register parse_if parse_access parse_command parse_after_label parse_line_tokens
    parse_line
parse_line_tests = (refl, refl, refl, refl, refl, refl, refl, refl, refl)

-- The label of a section without instructions is still there in the next one.
parse_from_string_tests :
    (parse_from_string refused ≡ parsing_error 2 (Message.bad_command Command.other_command))
    × (parse_from_string [] ≡ done (record { program = []; label_mapping = [] } ∷ []))
    × (parse_from_string (codes "3:\nMAKETHREAD\n1 = 2\n3:\n")
        ≡ parsing_error 4 (Message.duplicate_label 3))
unfolding first_word words lines read_digits read_magnitude read_number extract_size extract_int
    parse_tokens parse_register parse_constant parse_label try_parse_label parse_store_in_register
    parse_command parse_after_label parse_line_tokens parse_line add_label add_line read_line
    parse_lines parse_from_stream parse_from_string
parse_from_string_tests = (refl, refl, refl)
