-- ===== src/Program/Sources.antt =====
-- `parseFromString` on the printed instructions of several threads.
use weak_memory_models_mock.Base.{
  ℕ, suc, ◌<◌, ◌≡◌, refl, sym, ap, ◌∙◌, Option, none, some, List, [], ◌∷◌, ◌++◌, append_assoc,
  append-nil, map, length, length-append, All, All-append, inl, inr, arith, Bytes,
}
use weak_memory_models_mock.Program.{Program, Instruction}
use weak_memory_models_mock.Program.Tokens.{IsLine}
use weak_memory_models_mock.Program.Parser.{parsed, ◌>>=◌}
use weak_memory_models_mock.Program.RoundTrip.{
  Fits, FitsLabel, reprint, print_line, print_line-IsCode, print_line-IsLine, parse_line-print_line,
}
use weak_memory_models_mock.Program.Stream.{
  Reading, thread_separator, end_thread, add_line, read_line, done, finish, parse_lines, start,
  parse_from_stream, parse_from_string,
}
use weak_memory_models_mock.Program.Refusal.{reads, Parsed-cases, parsed-injective}
use weak_memory_models_mock.Program.SourceText.{
  Source, instructions, label_positions, program_of, IsFresh, with_position, IsSource, print_source,
  print_sources, print_lines, lines-print_lines, IsCode-same_text, add_label_lem,
}

-- One line of a source, and all of them.
read_line-print_line :
    (st : Reading) (label : Option ℕ) (i : Instruction)
    → FitsLabel label
    → Fits i
    → reprint i ≡ parsed i
    → IsFresh st.label_mapping label
    → read_line st (print_line label i)
      ≡ parsed (record st {
        program = st.program ++ (i ∷ []);
        label_mapping = with_position (length st.program) st.label_mapping label;
      })
unfolding read_line add_line
read_line-print_line st label i fits h known fresh = rw (
  IsCode-same_text (print_line label i) (print_line-IsCode label i),
  parse_line-print_line label i fits h,
  known,
  add_label_lem st label fresh,
)

label_positions-cons :
    (n : ℕ) (before : List (ℕ × ℕ)) (label : Option ℕ) (i : Instruction) (source : Source)
    → label_positions n before ((label, i) ∷ source)
      ≡ label_positions (suc n) (with_position n before label) source
label_positions-cons n before none i source = refl
label_positions-cons n before (some label) i source = refl

abbrev read_source : ℕ → Reading → Source → Reading
read_source n st source = record st {
  program = st.program ++ instructions source;
  label_mapping = label_positions n st.label_mapping source;
}

reads-print_source :
    (n : ℕ) (st : Reading) (source : Source)
    → length st.program ≡ n
    → IsSource n st.label_mapping source
    → reads st (print_source source) ≡ parsed (read_source n st source)
unfolding reads
reads-print_source n st [] size h =
    ap (λ program. parsed (record st { program = program })) (sym (append-nil st.program))
reads-print_source n st ((label, i) ∷ source) size (fits_label, fits, known, fresh, h) =
    let first = rw size at (read_line-print_line st label i fits_label fits known fresh) in
    let st' : Reading = record st {
      program = st.program ++ (i ∷ []);
      label_mapping = with_position n st.label_mapping label;
    } in
    let size' : length st'.program ≡ suc n =
      let s = length-append st.program (i ∷ []) in omega (arith, s, size) in
    rw (
      first,
      reads-print_source (suc n) st' source size' h,
      label_positions-cons n st.label_mapping label i source,
      append_assoc st.program (i ∷ []) (instructions source),
    )

reads-append :
    (st : Reading) (first second : List Bytes)
    → reads st (first ++ second) ≡ (reads st first >>= λ st'. reads st' second)
unfolding reads
reads-append st [] second = refl
reads-append st (line ∷ first) second = elim (Parsed-cases (read_line st line)) [
  | inl (m, e) ↦ rw e refl
  | inr (st', e) ↦ rw e (reads-append st' first second)
]

-- Every source but the last has an instruction.
abbrev pub AreSources : List Source → Type 0
AreSources [] = ⊥
AreSources (source ∷ []) = IsSource 0 [] source
AreSources (source ∷ next ∷ sources) =
    (0 < length source) × IsSource 0 [] source × AreSources (next ∷ sources)

abbrev started : List Program → Reading
started programs = record { program = []; label_mapping = []; thread_programs = programs }

end_thread-read_source :
    (programs : List Program) (source : Source)
    → 0 < length source
    → end_thread (read_source 0 (started programs) source)
      ≡ started (programs ++ (program_of source ∷ []))
end_thread-read_source programs [] h = absurd (omega arith)
end_thread-read_source programs ((label, i) ∷ source) h = refl

-- What was read up to the end is finished as the programs of the sources.
reads-print_sources :
    (programs : List Program) (sources : List Source)
    → AreSources sources
    → (st : Reading) × (reads (started programs) (print_sources sources) ≡ parsed st)
      × (finish st ≡ programs ++ map program_of sources)
reads-print_sources programs [] h = absurd h
reads-print_sources programs (source ∷ []) h = (
  read_source 0 (started programs) source,
  reads-print_source 0 (started programs) source refl h,
  refl,
)
reads-print_sources programs (source ∷ next ∷ sources) (some_line, h, more) =
    let (st, read, end) =
      reads-print_sources (programs ++ (program_of source ∷ [])) (next ∷ sources) more in
    (
      st,
      reads-append (started programs) (print_source source) _
          ∙ ap (λ r. r >>= λ st'. reads st' (thread_separator ∷ print_sources (next ∷ sources)))
              (reads-print_source 0 (started programs) source refl h)
          ∙ separated (read_source 0 (started programs) source)
          ∙ ap (λ st'. reads st' (print_sources (next ∷ sources)))
              (end_thread-read_source programs source some_line)
          ∙ read,
      end ∙ append_assoc programs (program_of source ∷ []) (map program_of (next ∷ sources)),
    )
  where
    separated :
        (st' : Reading)
        → reads st' (thread_separator ∷ print_sources (next ∷ sources))
          ≡ reads (end_thread st') (print_sources (next ∷ sources))
    separated st' = unfold reads read_line in refl

parse_lines-reads :
    (n : ℕ) (st st' : Reading) (text : List Bytes)
    → reads st text ≡ parsed st'
    → parse_lines n st text ≡ done (finish st')
unfolding parse_lines reads
parse_lines-reads n st st' [] e = ap (λ st''. done (finish st'')) (parsed-injective e)
parse_lines-reads n st st' (line ∷ rest) e = elim (Parsed-cases (read_line st line)) [
  | inl (m, f) ↦ let e' = rw f at e in absurd (cc)
  | inr (st'', f) ↦ rw f (parse_lines-reads (suc n) st'' st' rest (rw f at e))
]

print_source-IsLine : (source : Source) → All IsLine (print_source source)
print_source-IsLine [] = tt
print_source-IsLine ((label, i) ∷ source) = (print_line-IsLine label i, print_source-IsLine source)

print_sources-IsLine : (sources : List Source) → All IsLine (print_sources sources)
print_sources-IsLine [] = tt
print_sources-IsLine (source ∷ []) = print_source-IsLine source
print_sources-IsLine (source ∷ next ∷ sources) =
    All-append IsLine (print_source source) _ (print_source-IsLine source) (
      (refl, (refl, (refl, (refl, (refl, (refl, (refl, (refl, (refl, (refl, tt)))))))))),
      print_sources-IsLine (next ∷ sources),
    )

-- Printed with the separator between them, the sources of threads are read back by
-- `Parser::parseFromString`: as one program for each, with its instructions in order and its labels at
-- their positions. The numbers fit, no instruction is a fetch-and-increment, a label stands once in a
-- source, and every source but the last has an instruction.
pub parse_from_string-print_sources :
    (sources : List Source)
    → AreSources sources
    → parse_from_string (print_lines (print_sources sources)) ≡ done (map program_of sources)
unfolding parse_from_string parse_from_stream
parse_from_string-print_sources sources h =
    let (st, read, end) = reads-print_sources [] sources h in
    ap (parse_lines 0 start)
      (lines-print_lines (print_sources sources) (print_sources-IsLine sources))
    ∙ parse_lines-reads 0 start st (print_sources sources) read
    ∙ ap done end
