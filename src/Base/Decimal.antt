-- ===== src/Base/Decimal.antt =====
-- Numbers in texts: `<<` and `>>` of the streams for size_t and int32_t, in the C locale.
use Prim.Native.Nat.{ℕ, zero, suc, ◌+◌, ◌-◌, ◌*◌, ◌/◌, ◌%◌, ◌^◌, ◌≤◌, ◌<◌}
use mathlib.Core.Path.{◌≡◌, refl, ◌∙◌}
use mathlib.Core.Logic.{inl, inr}
use mathlib.Core.Bool.{Bool, true, false, ◌&&◌}
use mathlib.Core.Option.{Option, none, some}
use mathlib.Core.List.{[], ◌∷◌, ◌++◌, append_assoc, append-nil}
use native.Mathlib.Omega.{arith}
use weak_memory_models_mock.Base.Tests.{ltb, leb, ◌==◌, if◌then◌else◌, Bool-cases}
use weak_memory_models_mock.Base.Lists.{All, All-append, All-map}
use weak_memory_models_mock.Base.Int.{ℤ, pos, negsuc, fits32}
use weak_memory_models_mock.Base.Text.{Bytes, is_space, IsWord}

abbrev pub is_digit : ℕ → Bool
is_digit c = leb b'0' c && leb c b'9'

-- The decimal digits of a number, the last one in each round. There are at most `fuel` digits.
unfoldable pub digits : ℕ → ℕ → Bytes
digits zero n = []
digits (suc fuel) n = elim (ltb n 10) [
  | true ↦ (b'0' + n) ∷ []
  | false ↦ digits fuel (n / 10) ++ ((b'0' + n % 10) ∷ [])
]

-- A number has fewer digits than one more than itself.
unfoldable pub print_size : ℕ → Bytes
print_size n = digits (suc n) n

unfoldable pub print_int : ℤ → Bytes
print_int (pos n) = print_size n
print_int (negsuc n) = b'-' ∷ print_size (suc n)

-- The digits that a text begins with, behind those that have given `n`.
unfoldable pub read_digits : ℕ → Bytes → ℕ
read_digits n [] = n
read_digits n (c ∷ text) = if is_digit c then read_digits (n * 10 + (c - b'0')) text else n

-- The magnitude; without a digit the extraction fails.
unfoldable pub read_magnitude : Bytes → Option ℕ
read_magnitude [] = none
read_magnitude (c ∷ text) = if is_digit c then some (read_digits 0 (c ∷ text)) else none

-- `num_get`: spaces are skipped, a sign may follow, then digits. What follows them is left unread.
-- The flag says that the sign was a minus.
unfoldable pub read_number : Bytes → Bool × Option ℕ
read_number [] = (false, none)
read_number (c ∷ text) =
    let rest = read_number text in
    if is_space c
    then rest
    else if c == b'-'
    then (true, read_magnitude text)
    else if c == b'+'
    then (false, read_magnitude text)
    else (false, read_magnitude (c ∷ text))

-- `>>` into a size_t: a magnitude that fits, and with a minus its negative modulo 2 ^ 64.
abbrev pub size_of : Bool × Option ℕ → Option ℕ
size_of (negative, none) = none
size_of (negative, some n) =
    if ltb n (2 ^ 64) then some (if negative then (2 ^ 64 - n) % 2 ^ 64 else n) else none

unfoldable pub extract_size : Bytes → Option ℕ
extract_size text = size_of (read_number text)

-- `>>` into an int32_t
abbrev pub negate : ℕ → ℤ
negate zero = pos 0
negate (suc n) = negsuc n

abbrev pub int_of : Bool × Option ℕ → Option ℤ
int_of (negative, none) = none
int_of (negative, some n) =
    let a = if negative then negate n else pos n in if fits32 a then some a else none

unfoldable pub extract_int : Bytes → Option ℤ
extract_int text = int_of (read_number text)

abbrev pub IsDigit : ℕ → Type 0
IsDigit c = (b'0' ≤ c) × (c ≤ b'9')

-- A text that does not begin with a digit.
abbrev pub EndsDigits : Bytes → Type 0
EndsDigits [] = Unit
EndsDigits (c ∷ text) = is_digit c ≡ false

digits_small : (fuel n : ℕ) → ltb n 10 ≡ true → digits (suc fuel) n ≡ (b'0' + n) ∷ []
unfolding digits
digits_small fuel n e = rw (digits, e)

digits_large :
    (fuel n : ℕ)
    → ltb n 10 ≡ false
    → digits (suc fuel) n ≡ digits fuel (n / 10) ++ ((b'0' + n % 10) ∷ [])
unfolding digits
digits_large fuel n e = rw (digits, e)

tenth_lt : (fuel n : ℕ) → ltb n 10 ≡ false → n < suc fuel → n / 10 < fuel
tenth_lt fuel n e h = ground (arith, e, h)

last_digit : (n : ℕ) → n / 10 * 10 + (b'0' + n % 10 - b'0') ≡ n
last_digit n = omega arith

-- The digits of a number are one or more, and they spell it in front of any text.
digits-cons :
    (fuel n : ℕ)
    → n < fuel
    → (d : ℕ) × (rest : Bytes) × (digits fuel n ≡ d ∷ rest) × IsDigit d × All IsDigit rest
digits-cons zero n h = absurd (omega arith)
digits-cons (suc fuel) n h = elim (Bool-cases (ltb n 10)) [
  | inl e ↦ (b'0' + n, [], digits_small fuel n e, ground (arith, e), tt)
  | inr e ↦
      let (d, rest, q, digit, all) = digits-cons fuel (n / 10) (tenth_lt fuel n e h) in
      (
        d,
        rest ++ ((b'0' + n % 10) ∷ []),
        rw (digits_large fuel n e, q),
        digit,
        All-append IsDigit rest ((b'0' + n % 10) ∷ []) all ((omega arith), tt),
      )
]

read_digits-digits :
    (fuel n : ℕ) (text : Bytes)
    → n < fuel
    → read_digits 0 (digits fuel n ++ text) ≡ read_digits n text
read_digits-digits zero n text h = absurd (omega arith)
read_digits-digits (suc fuel) n text h = elim (Bool-cases (ltb n 10)) [
  | inl e ↦ rw (digits_small fuel n e) (unfold read_digits in ground (arith, e))
  | inr e ↦
      rw
        (
          digits_large fuel n e,
          append_assoc (digits fuel (n / 10)) ((b'0' + n % 10) ∷ []) text,
          read_digits-digits fuel (n / 10) ((b'0' + n % 10) ∷ text) (tenth_lt fuel n e h),
        )
        (unfold read_digits in ground (arith, last_digit n))
]

read_digits_end : (n : ℕ) (text : Bytes) → EndsDigits text → read_digits n text ≡ n
unfolding read_digits
read_digits_end n [] h = refl
read_digits_end n (c ∷ text) h = rw h

pub print_size-cons :
    (n : ℕ) → (d : ℕ) × (rest : Bytes) × (print_size n ≡ d ∷ rest) × IsDigit d × All IsDigit rest
unfolding print_size
print_size-cons n = digits-cons (suc n) n (omega arith)

read_magnitude-print_size :
    (n : ℕ) (text : Bytes) → EndsDigits text → read_magnitude (print_size n ++ text) ≡ some n
read_magnitude-print_size n text h =
    let (d, rest, q, digit, _) = print_size-cons n in
    let r : read_digits 0 (print_size n ++ text) ≡ n =
      unfold print_size in
      read_digits-digits (suc n) n text (omega arith) ∙ read_digits_end n text h in
    let r' = rw q at r in rw q (unfold read_magnitude in ground (arith, digit, r'))

-- A printed number is read back, and what follows its digits is left unread, whatever it is.
pub read_number-print_size :
    (n : ℕ) (text : Bytes) → EndsDigits text → read_number (print_size n ++ text) ≡ (false, some n)
read_number-print_size n text h =
    let (d, rest, q, digit, _) = print_size-cons n in
    let r' = rw q at (read_magnitude-print_size n text h) in
    rw q (unfold read_number in ground (arith, digit, r'))

digit_no_space : (c : ℕ) → IsDigit c → is_space c ≡ false
digit_no_space c h = ground (arith, h)

pub print_size-IsWord : (n : ℕ) → IsWord (print_size n)
print_size-IsWord n =
    let (d, rest, q, digit, all) = print_size-cons n in
    rw q (digit_no_space d digit, All-map IsDigit _ rest digit_no_space all)

pub print_int-IsWord : (a : ℤ) → IsWord (print_int a)
unfolding print_int
print_int-IsWord (pos n) = print_size-IsWord n
print_int-IsWord (negsuc n) =
    let (d, rest, q, digit, all) = print_size-cons (suc n) in
    rw q (refl, (digit_no_space d digit, All-map IsDigit _ rest digit_no_space all))

pub extract_size-print_size :
    (n : ℕ) (text : Bytes)
    → n < 2 ^ 64
    → EndsDigits text
    → extract_size (print_size n ++ text) ≡ some n
unfolding extract_size
extract_size-print_size n text h ends = rw (read_number-print_size n text ends) (ground (arith, h))

pub extract_size_only : (n : ℕ) → n < 2 ^ 64 → extract_size (print_size n) ≡ some n
extract_size_only n h = rw append-nil at (extract_size-print_size n [] h tt)

pub extract_int-print_int : (a : ℤ) → fits32 a ≡ true → extract_int (print_int a) ≡ some a
unfolding extract_int print_int
extract_int-print_int (pos n) h =
    let r = rw append-nil at (read_number-print_size n [] tt) in rw (r, h)
extract_int-print_int (negsuc n) h =
    let r : read_number (b'-' ∷ print_size (suc n)) ≡ (true, some (suc n)) =
      unfold read_number in rw (rw append-nil at (read_magnitude-print_size (suc n) [] tt)) in
    rw (r, h)
