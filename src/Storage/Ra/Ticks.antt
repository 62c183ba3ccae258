-- ===== src/Storage/Ra/Ticks.antt =====
-- Timestamps and random numbers that can be evaluated.
use weak_memory_models_mock.Base.{
  ℕ, ◌+◌, ◌/◌, ◌^◌, ◌≤◌, ◌≡◌, true, false, arith, ltb, leb, if◌then◌else◌,
}
use weak_memory_models_mock.Storage.Ra.Timestamps.{Timestamps}
use weak_memory_models_mock.Storage.Ra.Updates.{Uniform}

pub ltb_irrefl : (a : ℕ) → ltb a a ≡ false
ltb_irrefl a = ground arith

pub ltb_trans : (a b c : ℕ) → ltb a b ≡ true → ltb b c ≡ true → ltb a c ≡ true
ltb_trans a b c h k = ground (arith, h, k)

pub ltb_connex : (a b : ℕ) → ltb a b ≡ false → ltb b a ≡ false → a ≡ b
ltb_connex a b h k = ground (arith, h, k)

-- Timestamps in units of 1 / 1024, far below where a double loses the difference.
abbrev pub ticks : Timestamps
ticks = record {
  T = ℕ;
  lt = ltb;
  zero = 0;
  infinity = 2 ^ 60;
  next = λ t. t + 1024;
  middle = λ a b. (a + b) / 2;
  lt_irrefl = ltb_irrefl;
  lt_trans = ltb_trans;
  lt_connex = ltb_connex;
}

abbrev pub step : ℕ → ℕ → ℕ → ℕ × ℕ
step g a b = if leb (a + g) b then (a + g, g + 1) else (a, 0)

pub step_in_range : (g a b : ℕ) → a ≤ b → (a ≤ (step g a b).0) × ((step g a b).0 ≤ b)
step_in_range g a b h = ground (arith, h)

-- A generator that counts up from the lower bound.
abbrev pub counter : Uniform
counter = record { Generator = ℕ; draw = step; draw_in_range = step_in_range }
