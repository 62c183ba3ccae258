-- ===== src/Program/SourceText.antt =====
-- The text of several threads, and what it stands for.
use weak_memory_models_mock.Base.{
  ℕ, suc, ◌≡◌, refl, ap, ◌∙◌, false, Option, none, some, List, [], ◌∷◌, ◌++◌, map, length, All,
  Bytes, same_text, lines,
}
use weak_memory_models_mock.Program.{Program, Instruction, find_label}
use weak_memory_models_mock.Program.Tokens.{IsLine, IsCode}
use weak_memory_models_mock.Program.Parser.{parsed}
use weak_memory_models_mock.Program.RoundTrip.{Fits, FitsLabel, reprint, print_line}
use weak_memory_models_mock.Program.Stream.{Reading, thread_separator, add_label}

-- The source of a thread: its instructions, each with its label or without one.
abbrev pub Source : Type 0
Source = List (Option ℕ × Instruction)

abbrev pub instructions : Source → List Instruction
instructions source = map (λ (item : Option ℕ × Instruction). item.1) source

-- The labels of a source whose first instruction has position `n`, the last one first.
abbrev pub label_positions : ℕ → List (ℕ × ℕ) → Source → List (ℕ × ℕ)
label_positions n before [] = before
label_positions n before ((none, i) ∷ source) = label_positions (suc n) before source
label_positions n before ((some label, i) ∷ source) =
    label_positions (suc n) ((label, n) ∷ before) source

abbrev pub program_of : Source → Program
program_of source = record {
  program = instructions source;
  label_mapping = label_positions 0 [] source;
}

-- Every number is a value of its type, no instruction is one that the parser refuses, and no label
-- stands twice.
abbrev pub IsFresh : List (ℕ × ℕ) → Option ℕ → Type 0
IsFresh before none = Unit
IsFresh before (some label) = find_label before label ≡ none

abbrev pub with_position : ℕ → List (ℕ × ℕ) → Option ℕ → List (ℕ × ℕ)
with_position n before none = before
with_position n before (some label) = (label, n) ∷ before

abbrev pub IsSource : ℕ → List (ℕ × ℕ) → Source → Type 0
IsSource n before [] = Unit
IsSource n before ((label, i) ∷ source) =
    FitsLabel label
    × Fits i
    × (reprint i ≡ parsed i)
    × IsFresh before label
    × IsSource (suc n) (with_position n before label) source

-- The text of a source, and of several with the separator between them, in lines.
abbrev pub print_source : Source → List Bytes
print_source [] = []
print_source ((label, i) ∷ source) = print_line label i ∷ print_source source

abbrev pub print_sources : List Source → List Bytes
print_sources [] = []
print_sources (source ∷ []) = print_source source
print_sources (source ∷ next ∷ sources) =
    print_source source ++ thread_separator ∷ print_sources (next ∷ sources)

abbrev pub print_lines : List Bytes → Bytes
print_lines [] = []
print_lines (line ∷ rest) = line ++ b'\n' ∷ print_lines rest

pub lines-append :
    (line text : Bytes) → IsLine line → lines (line ++ b'\n' ∷ text) ≡ line ∷ lines text
unfolding lines
lines-append [] text h = refl
lines-append (c ∷ line) text h = rw (h.0, lines-append line text h.1)

pub lines-print_lines : (texts : List Bytes) → All IsLine texts → lines (print_lines texts) ≡ texts
lines-print_lines [] h = unfold lines in refl
lines-print_lines (line ∷ texts) h =
    lines-append line (print_lines texts) h.0 ∙ ap (◌∷◌ line) (lines-print_lines texts h.1)

-- A printed line is not the separator.
pub IsCode-same_text : (text : Bytes) → IsCode text → same_text text thread_separator ≡ false
IsCode-same_text [] h = refl
IsCode-same_text (c ∷ text) h = rw h.1

pub add_label_lem :
    (st : Reading) (label : Option ℕ)
    → IsFresh st.label_mapping label
    → add_label st label
      ≡ parsed
          (record st { label_mapping = with_position (length st.program) st.label_mapping label })
unfolding add_label
add_label_lem st none h = refl
add_label_lem st (some label) h = rw (add_label, h)
