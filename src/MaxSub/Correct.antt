-- ===== src/MaxSub/Correct.antt =====
-- Algorithms/D&C/max_sub.c: `max_sub` returns the greatest sum.
use c_programming_language.Base.{ℕ, ◌+◌, ◌≤◌, ◌<◌, ◌≡◌, ◌⊎◌}
use c_programming_language.Base.Int.{ℤ, ◌≤ℤ◌}
use c_programming_language.MaxSub.{int_min}
use c_programming_language.MaxSub.Sums.{part}
use c_programming_language.MaxSub.Middle.{IsPart}

-- Above the sum of every part from `start` to `stop`, and one of these sums, or `INT_MIN` if there is no
-- part.
pub record IsBest (a : ℕ → ℤ) (start stop : ℕ) (m : ℤ) : Type 0 where
  pub above : (i k : ℕ) → start ≤ i → 0 < k → i + k ≤ stop → part a i k ≤ℤ m
  pub among : (stop ≤ start) × (m ≡ int_min) ⊎ IsPart a start stop m
