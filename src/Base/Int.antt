-- ===== src/Base/Int.antt =====
-- `int32_t` and `size_t`. A value is the integer that it stands for; signed arithmetic that leaves
-- the range of int32_t is undefined in C++, and here it is the fault `overflow`.
use Prim.Native.Nat.{ℕ, suc, ◌+◌, ◌-◌, ◌*◌, ◌/◌, ◌^◌}
use mathlib.Core.Path.{◌≡◌}
use mathlib.Core.Logic.{◌↔◌}
use mathlib.Core.Bool.{Bool, true, false}
use native.Mathlib.Omega.{arith}
use weak_memory_models_mock.Base.Tests.{ltb, leb, ◌==◌, if◌then◌else◌}
use weak_memory_models_mock.Base.Outcome.{Result, ok, err, Fault}

-- `negsuc n` is -(n + 1).
pub data ℤ : Type 0 where
  pos : ℕ → ℤ
  negsuc : ℕ → ℤ

abbrev pub pos_part : ℤ → ℕ
pos_part (pos n) = n
pos_part (negsuc n) = 0

abbrev pub neg_part : ℤ → ℕ
neg_part (pos n) = 0
neg_part (negsuc n) = suc n

-- a - b, as an integer.
abbrev pub sub_ℕ : ℕ → ℕ → ℤ
sub_ℕ a b = if leb b a then pos (a - b) else negsuc (b - a - 1)

infix 50 ◌==ℤ◌
abbrev pub ◌==ℤ◌ : ℤ → ℤ → Bool
pos a ==ℤ pos b = a == b
negsuc a ==ℤ negsuc b = a == b
_ ==ℤ _ = false

pub ==ℤ_iff : (a b : ℤ) → ((a ==ℤ b) ≡ true) ↔ (a ≡ b)
==ℤ_iff (pos a) (pos b) = ground arith
==ℤ_iff (negsuc a) (negsuc b) = ground arith
==ℤ_iff _ _ = (λ e. absurd (cc), λ e. absurd (cc))

-- The range of int32_t.
abbrev pub fits32 : ℤ → Bool
fits32 (pos n) = ltb n (2 ^ 31)
fits32 (negsuc n) = ltb n (2 ^ 31)

abbrev pub int32 : ℤ → Result ℤ
int32 a = if fits32 a then ok a else err Fault.overflow

-- `a + b`, `a - b`, `a * b` on int32_t
unfoldable pub add32 : ℤ → ℤ → Result ℤ
add32 a b = int32 (sub_ℕ (pos_part a + pos_part b) (neg_part a + neg_part b))

unfoldable pub sub32 : ℤ → ℤ → Result ℤ
sub32 a b = int32 (sub_ℕ (pos_part a + neg_part b) (neg_part a + pos_part b))

unfoldable pub mul32 : ℤ → ℤ → Result ℤ
mul32 a b = int32 (
    sub_ℕ (pos_part a * pos_part b + neg_part a * neg_part b)
      (pos_part a * neg_part b + neg_part a * pos_part b))

-- A result, or the fault of an operation whose result does not fit.
abbrev pub OnlyOverflows {ℓ} : {A : Type ℓ} → Result A → Type 0
OnlyOverflows (ok a) = Unit
OnlyOverflows (err e) = e ≡ Fault.overflow

pub add32-OnlyOverflows : (a b : ℤ) → OnlyOverflows (add32 a b)
unfolding add32
add32-OnlyOverflows a b = ground arith

-- `a / b`, rounded towards zero; one of the two terms of each sum is 0.
unfoldable pub div32 : ℤ → ℤ → Result ℤ
div32 a b =
    if b ==ℤ pos 0
    then err Fault.division_by_zero
    else int32 (
        sub_ℕ (pos_part a / pos_part b + neg_part a / neg_part b)
          (pos_part a / neg_part b + neg_part a / pos_part b))

-- The conversion of an int32_t to size_t (64 bits): a negative number wraps around.
abbrev pub to_size : ℤ → ℕ
to_size (pos n) = n
to_size (negsuc n) = 2 ^ 64 - (n + 1)
