-- ===== src/Program/Stream.antt =====
-- `Parser::parseFromStream` and `Parser::parseFromString` of src/Program/src/Parser.cpp.
use weak_memory_models_mock.Base.{
  ℕ, suc, Option, none, some, List, [], ◌∷◌, ◌++◌, length, if◌then◌else◌, Bytes, codes, same_text,
  lines,
}
use weak_memory_models_mock.Program.{Program, Instruction, find_label}
use weak_memory_models_mock.Program.Parser.{
  Message, Parsed, throws, parsed, ◌>>=◌, Line, parse_line,
}

-- `program`, `labelMapping` and `threadPrograms`
pub record Reading : Type 0 where
  pub program : List Instruction
  pub label_mapping : List (ℕ × ℕ)
  pub thread_programs : List Program

abbrev pub thread_separator : Bytes
thread_separator = codes "MAKETHREAD"

-- What the separator does, by the program that was read before it. What is left behind a `std::move`
-- is emptied by the two calls of `clear`.
abbrev pub end_program : List Instruction → Reading → Reading
end_program [] st = st
end_program (i ∷ rest) st = record {
  program = [];
  label_mapping = [];
  thread_programs =
      st.thread_programs ++ (record { program = i ∷ rest; label_mapping = st.label_mapping } ∷ []);
}

abbrev pub end_thread : Reading → Reading
end_thread st = end_program st.program st

unfoldable pub add_label : Reading → Option ℕ → Parsed Reading
add_label st none = parsed st
add_label st (some label) = elim (find_label st.label_mapping label) [
  | some position ↦ throws (Message.duplicate_label label)
  | none ↦ parsed (record st { label_mapping = (label, length st.program) ∷ st.label_mapping })
]

abbrev pub add_instruction : Reading → Option Instruction → Reading
add_instruction st none = st
add_instruction st (some i) = record st { program = st.program ++ (i ∷ []) }

unfoldable pub add_line : Reading → Line → Parsed Reading
add_line st (label, instruction) =
    add_label st label >>= λ st'. parsed (add_instruction st' instruction)

-- The body of the loop, without the line's number.
unfoldable pub read_line : Reading → Bytes → Parsed Reading
read_line st line =
    if same_text line thread_separator
    then parsed (end_thread st)
    else (parse_line line >>= add_line st)

-- What `parseFromStream` ends with; a `ParsingError` has the number of a line.
pub data Parsing (A : Type 0) : Type 0 where
  parsing_error : ℕ → Message → Parsing A
  done : A → Parsing A

abbrev pub catch_error : {A B : Type 0} → ℕ → Parsed A → (A → Parsing B) → Parsing B
catch_error line (throws message) next = parsing_error line message
catch_error line (parsed a) next = next a

abbrev pub finish : Reading → List Program
finish st =
    st.thread_programs ++ (record { program = st.program; label_mapping = st.label_mapping } ∷ [])

-- The loop, and what follows it; `lines_read` is the count of the lines before.
unfoldable pub parse_lines : ℕ → Reading → List Bytes → Parsing (List Program)
parse_lines lines_read st [] = done (finish st)
parse_lines lines_read st (line ∷ rest) =
    catch_error (suc lines_read) (read_line st line) (λ st'. parse_lines (suc lines_read) st' rest)

abbrev pub start : Reading
start = record { program = []; label_mapping = []; thread_programs = [] }

-- A stream is the text that is left in it.
unfoldable pub parse_from_stream : Bytes → Parsing (List Program)
parse_from_stream text = parse_lines 0 start (lines text)

unfoldable pub parse_from_string : Bytes → Parsing (List Program)
parse_from_string input = parse_from_stream input
