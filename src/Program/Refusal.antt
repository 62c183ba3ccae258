-- ===== src/Program/Refusal.antt =====
-- Which line `parseFromStream` refuses, and the programs that it gives.
use weak_memory_models_mock.Base.{
  ℕ, suc, ◌+◌, ◌⊎◌, ◌≤◌, ◌<◌, ◌≡◌, refl, ap, Option, none, some, Option-cases, List, [], ◌∷◌, ◌++◌,
  length, length-append, All, All-append, All-map, arith, Bool-cases, inl, inr, Bytes, same_text,
  lines,
}
use weak_memory_models_mock.Program.{Program, Instruction, IsClosed, find_label}
use weak_memory_models_mock.Program.Parser.{Message, Parsed, throws, parsed, ◌>>=◌, parse_line}
use weak_memory_models_mock.Program.Stream.{
  Reading, thread_separator, end_program, add_label, add_instruction, add_line, read_line, Parsing,
  parsing_error, done, finish, parse_lines, start, parse_from_stream, parse_from_string,
}

-- The lines one after the other, without their numbers.
unfoldable pub reads : Reading → List Bytes → Parsed Reading
reads st [] = parsed st
reads st (line ∷ rest) = read_line st line >>= λ st'. reads st' rest

-- An error is that of the line with its number, where the lines before it were read; the programs are
-- those of all lines.
abbrev pub Explains : ℕ → Reading → List Bytes → Parsing (List Program) → Type 0
Explains n st text (parsing_error number message) =
    (before : List Bytes) × (line : Bytes) × (after : List Bytes) × (st' : Reading) × (text
      ≡ before ++ line ∷ after)
    × (number ≡ n + suc (length before))
    × (reads st before ≡ parsed st')
    × (read_line st' line ≡ throws message)
Explains n st text (done programs) =
    (st' : Reading) × (reads st text ≡ parsed st') × (programs ≡ finish st')

pub parsed-injective : {A : Type 0} {a b : A} → parsed a ≡ parsed b → a ≡ b
parsed-injective {A} {a} e = ap (λ (r : Parsed A). elim r [ throws m ↦ a | parsed x ↦ x ]) e

pub Parsed-cases :
    {A : Type 0} (r : Parsed A) → ((m : Message) × (r ≡ throws m)) ⊎ ((a : A) × (r ≡ parsed a))
Parsed-cases (throws m) = inl (m, refl)
Parsed-cases (parsed a) = inr (a, refl)

Explains-cons :
    (n : ℕ) (st st' : Reading) (line : Bytes) (rest : List Bytes) (outcome : Parsing (List Program))
    → read_line st line ≡ parsed st'
    → Explains (suc n) st' rest outcome
    → Explains n st (line ∷ rest) outcome
unfolding reads
Explains-cons n st st' line rest (parsing_error number message) e
      (before, refused, after, last, split, count, read, h) =
    (
      line ∷ before,
      refused,
      after,
      last,
      ap (◌∷◌ line) split,
      (omega (arith, count)),
      rw (e, read),
      h,
    )
Explains-cons n st st' line rest (done programs) e (last, read, h) = (last, rw (e, read), h)

parse_lines-Explains :
    (n : ℕ) (st : Reading) (text : List Bytes) → Explains n st text (parse_lines n st text)
unfolding parse_lines
parse_lines-Explains n st [] = (st, (unfold reads in refl), refl)
parse_lines-Explains n st (line ∷ rest) = elim (Parsed-cases (read_line st line)) [
  | inl (m, e) ↦ rw e ([], line, rest, st, refl, omega arith, (unfold reads in refl), e)
  | inr (st', e) ↦
      rw e (Explains-cons n st st' line rest _ e (parse_lines-Explains (suc n) st' rest))
]

-- `Parser::parseFromString` ends with the error of a line, by its number counted from one, where all
-- lines before it were read and the line is refused with this message; or all lines were read and the
-- programs are what they gave, the last one with what is behind the last separator.
pub parse_from_string-Explains :
    (input : Bytes) → Explains 0 start (lines input) (parse_from_string input)
unfolding parse_from_string parse_from_stream
parse_from_string-Explains input = parse_lines-Explains 0 start (lines input)

-- The labels of what is being read lie in it, and the programs are closed.
pub record IsReading (st : Reading) : Type 0 where
  pub open_labels : All (λ (entry : ℕ × ℕ). entry.1 ≤ length st.program) st.label_mapping
  pub closed : All IsClosed st.thread_programs

end_program-IsReading :
    (program : List Instruction) (st : Reading)
    → All (λ (entry : ℕ × ℕ). entry.1 ≤ length program) st.label_mapping
    → IsReading st
    → IsReading (end_program program st)
end_program-IsReading [] st labels h = h
end_program-IsReading (i ∷ rest) st labels h = record {
  open_labels = tt;
  closed = All-append IsClosed st.thread_programs _ h.closed (labels, tt);
}

add_label-IsReading :
    (st st' : Reading) (label : Option ℕ)
    → add_label st label ≡ parsed st'
    → IsReading st
    → IsReading st'
unfolding add_label
add_label-IsReading st st' none e h = rw (← parsed-injective e) h
add_label-IsReading st st' (some label) e h =
    elim (Option-cases (find_label st.label_mapping label)) [
      | inl f ↦
          rw (← parsed-injective (rw (add_label, f) at e))
            (record { open_labels = ((omega arith), h.open_labels); closed = h.closed })
      | inr (i, f) ↦ let e' = rw (add_label, f) at e in absurd (cc)
    ]

add_instruction-IsReading :
    (st : Reading) (instruction : Option Instruction)
    → IsReading st
    → IsReading (add_instruction st instruction)
add_instruction-IsReading st none h = h
add_instruction-IsReading st (some i) h = record {
  open_labels =
      All-map _ _ st.label_mapping
        (λ entry l. let size = length-append st.program (i ∷ []) in omega (arith, l, size))
        h.open_labels;
  closed = h.closed;
}

read_line-IsReading :
    (st st' : Reading) (line : Bytes)
    → read_line st line ≡ parsed st'
    → IsReading st
    → IsReading st'
unfolding read_line add_line
read_line-IsReading st st' line e h = elim (Bool-cases (same_text line thread_separator)) [
  | inl f ↦
      rw (← parsed-injective (rw f at e)) (end_program-IsReading st.program st h.open_labels h)
  | inr f ↦ elim (Parsed-cases (parse_line line)) [
    | inl (m, g) ↦ let e' = rw (f, g) at e in absurd (cc)
    | inr (parts, g) ↦ elim (Parsed-cases (add_label st parts.0)) [
      | inl (m, k) ↦ let e' = rw (f, g, k) at e in absurd (cc)
      | inr (st'', k) ↦
          rw (← parsed-injective (rw (f, g, k) at e))
            (add_instruction-IsReading st'' parts.1 (add_label-IsReading st st'' parts.0 k h))
    ]
  ]
]

reads-IsReading :
    (st st' : Reading) (text : List Bytes)
    → reads st text ≡ parsed st'
    → IsReading st
    → IsReading st'
unfolding reads
reads-IsReading st st' [] e h = rw (← parsed-injective e) h
reads-IsReading st st' (line ∷ rest) e h = elim (Parsed-cases (read_line st line)) [
  | inl (m, f) ↦ let e' = rw f at e in absurd (cc)
  | inr (st'', f) ↦ reads-IsReading st'' st' rest (rw f at e) (read_line-IsReading st st'' line f h)
]

-- What the programs have, where the parser gives programs.
abbrev pub Gives : (List Program → Type 0) → Parsing (List Program) → Type 0
Gives Holds (parsing_error number message) = Unit
Gives Holds (done programs) = Holds programs

pub Gives-map :
    (Has Wants : List Program → Type 0) (outcome : Parsing (List Program))
    → ((programs : List Program) → Has programs → Wants programs)
    → Gives Has outcome
    → Gives Wants outcome
Gives-map Has Wants (parsing_error number message) step h = tt
Gives-map Has Wants (done programs) step h = step programs h

pub parse_from_string-IsClosed :
    (input : Bytes)
    → Gives (λ programs. All IsClosed programs × (0 < length programs)) (parse_from_string input)
parse_from_string-IsClosed input = go (parse_from_string input) (parse_from_string-Explains input)
  where
    go :
        (outcome : Parsing (List Program))
        → Explains 0 start (lines input) outcome
        → Gives (λ programs. All IsClosed programs × (0 < length programs)) outcome
    go (parsing_error number message) h = tt
    go (done programs) (st, read, e) =
        let h =
          reads-IsReading start st (lines input) read (record { open_labels = tt; closed = tt }) in
        let size =
          length-append st.thread_programs
            (record { program = st.program; label_mapping = st.label_mapping } ∷ []) in
        rw e (
          All-append IsClosed st.thread_programs _ h.closed (h.open_labels, tt),
          (omega (arith, size)),
        )
