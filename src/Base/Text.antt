-- ===== src/Base/Text.antt =====
-- `std::string` as a list of bytes, and what `std::istream` gives of one: the words of `>>`, the
-- lines of `std::getline`.
use Prim.Native.Nat.{ℕ}
use Prim.Native.Char.{code}
use Prim.Native.String.{String}
use mathlib.Core.Path.{◌≡◌, refl, ap, ◌∙◌}
use mathlib.Core.Logic.{inl, inr}
use mathlib.Core.Bool.{Bool, true, false, not, ◌&&◌, ◌||◌}
use mathlib.Core.Option.{Option, none, some}
use mathlib.Core.List.{List, [], ◌∷◌, ◌++◌}
use weak_memory_models_mock.Base.Tests.{leb, ◌==◌, if◌then◌else◌, Bool-cases}
use weak_memory_models_mock.Base.Lists.{All}

abbrev pub Bytes : Type 0
Bytes = List ℕ

-- The bytes of an ASCII literal.
abbrev pub codes : String → Bytes
codes String.[] = []
codes (String.◌∷◌ c text) = code c ∷ codes text

-- `operator==` on strings
abbrev pub same_text : Bytes → Bytes → Bool
same_text [] [] = true
same_text (a ∷ s) (b ∷ t) = (a == b) && same_text s t
same_text _ _ = false

-- `std::map` from strings, as a list of its entries
abbrev pub find_text {ℓ} : {A : Type ℓ} → List (Bytes × A) → Bytes → Option A
find_text [] key = none
find_text ((text, a) ∷ entries) key = if same_text text key then some a else find_text entries key

-- `std::isspace` in the C locale
abbrev pub is_space : ℕ → Bool
is_space c = c == b' ' || (leb 9 c && leb c 13)

-- The word that a text begins with, and the words behind it.
abbrev pub add_word : Bytes × List Bytes → List Bytes
add_word ([], words) = words
add_word (c ∷ word, words) = (c ∷ word) ∷ words

unfoldable pub first_word : Bytes → Bytes × List Bytes
first_word [] = ([], [])
first_word (c ∷ text) =
    let (word, words) = first_word text in
    if is_space c then ([], add_word (word, words)) else (c ∷ word, words)

-- What `stream >> token` gives, one call after the other, until it fails.
unfoldable pub words : Bytes → List Bytes
words text = add_word (first_word text)

-- What `std::getline` gives until it fails: what follows the last line break is a line only if there
-- is something.
abbrev pub add_byte : ℕ → List Bytes → List Bytes
add_byte c [] = (c ∷ []) ∷ []
add_byte c (line ∷ lines) = (c ∷ line) ∷ lines

unfoldable pub lines : Bytes → List Bytes
lines [] = []
lines (c ∷ text) = let rest = lines text in if c == b'\n' then [] ∷ rest else add_byte c rest

-- A word: bytes, and no space among them.
abbrev pub IsWord : Bytes → Type 0
IsWord [] = ⊥
IsWord (c ∷ word) = All (λ d. is_space d ≡ false) (c ∷ word)

first_word-append :
    (word text : Bytes)
    → All (λ d. is_space d ≡ false) word
    → first_word (word ++ b' ' ∷ text) ≡ (word, words text)
unfolding first_word words
first_word-append [] text h = refl
first_word-append (c ∷ word) text h = rw (h.0, first_word-append word text h.1)

first_word_only : (word : Bytes) → All (λ d. is_space d ≡ false) word → first_word word ≡ (word, [])
unfolding first_word
first_word_only [] h = refl
first_word_only (c ∷ word) h = rw (h.0, first_word_only word h.1)

-- A word and a space before a text, and a word alone.
pub words-append :
    (word text : Bytes) → IsWord word → words (word ++ b' ' ∷ text) ≡ word ∷ words text
unfolding words
words-append [] text h = absurd h
words-append (c ∷ word) text h = ap add_word (first_word-append (c ∷ word) text h)

pub words_only : (word : Bytes) → IsWord word → words word ≡ word ∷ []
unfolding words
words_only [] h = absurd h
words_only (c ∷ word) h = ap add_word (first_word_only (c ∷ word) h)

-- The test, for words that are written out.
abbrev no_spaces : Bytes → Bool
no_spaces [] = true
no_spaces (c ∷ word) = not (is_space c) && no_spaces word

no_spaces-All : (word : Bytes) → no_spaces word ≡ true → All (λ d. is_space d ≡ false) word
no_spaces-All [] h = tt
no_spaces-All (c ∷ word) h = elim (Bool-cases (is_space c)) [
  | inl e ↦ let h' = rw e at h in cc
  | inr e ↦ (e, no_spaces-All word (rw e at h))
]

abbrev pub is_word : Bytes → Bool
is_word [] = false
is_word (c ∷ word) = no_spaces (c ∷ word)

pub is_word-IsWord : (word : Bytes) → is_word word ≡ true → IsWord word
is_word-IsWord [] h = cc
is_word-IsWord (c ∷ word) h = no_spaces-All (c ∷ word) h

-- Words with a space between them.
abbrev pub join_words : List Bytes → Bytes
join_words [] = []
join_words (word ∷ []) = word
join_words (word ∷ next ∷ words) = word ++ b' ' ∷ join_words (next ∷ words)

pub words-join_words : (texts : List Bytes) → All IsWord texts → words (join_words texts) ≡ texts
words-join_words [] h = unfold words first_word in refl
words-join_words (word ∷ []) h = words_only word h.0
words-join_words (word ∷ next ∷ texts) h =
    words-append word (join_words (next ∷ texts)) h.0
    ∙ ap (◌∷◌ word) (words-join_words (next ∷ texts) h.1)
