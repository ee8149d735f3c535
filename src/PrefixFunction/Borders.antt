-- ===== src/PrefixFunction/Borders.antt =====
-- Borders of a prefix: its beginnings that are also its ends.
use native.Mathlib.Decide.{dec_lt}
use c_programming_language.Base.{ℕ, ◌+◌, ◌-◌, ◌≤◌, ◌<◌, ◌≡◌, sym, ap, ◌∙◌, arith}

-- The first `k` characters of `s` are the last `k` of its first `n`.
abbrev pub Border : (ℕ → ℕ) → ℕ → ℕ → Type 0
Border s n k = (j : ℕ) → j < k → s j ≡ s ((n - k) + j)

-- `k` is the length of the longest border of the first `n` characters that is not all of them.
pub record IsLongest (s : ℕ → ℕ) (n k : ℕ) : Type 0 where
  pub shorter : k < n
  pub border : Border s n k
  pub longest : (l : ℕ) → l < n → Border s n l → l ≤ k

pub Border-zero : (s : ℕ → ℕ) (n : ℕ) → Border s n 0
Border-zero s n j h = absurd (omega arith)

-- A border grows where the next characters are equal.
pub Border-grow :
    (s : ℕ → ℕ) (n k : ℕ) → k ≤ n → s n ≡ s k → Border s n k → Border s (n + 1) (k + 1)
Border-grow s n k h e b j lt = elim (dec_lt j k) [
  | yes below ↦
      b j below ∙ ap s (let same : (n - k) + j ≡ (n + 1 - (k + 1)) + j = omega arith in same)
  | no last ↦
      let at : j ≡ k = omega arith in
      ap s at ∙ sym e ∙ ap s (let same : n ≡ (n + 1 - (k + 1)) + j = omega arith in same)
]

-- A border without its last character is one of the prefix without its last.
pub Border-shrink : (s : ℕ → ℕ) (n k : ℕ) → k ≤ n → Border s (n + 1) (k + 1) → Border s n k
Border-shrink s n k h b j lt =
    b j (omega arith) ∙ ap s (let same : (n + 1 - (k + 1)) + j ≡ (n - k) + j = omega arith in same)

pub Border-last : (s : ℕ → ℕ) (n k : ℕ) → k ≤ n → Border s (n + 1) (k + 1) → s k ≡ s n
Border-last s n k h b =
    b k (omega arith) ∙ ap s (let same : (n + 1 - (k + 1)) + k ≡ n = omega arith in same)

-- A border of a border is a border.
pub Border-trans :
    (s : ℕ → ℕ) (n l k : ℕ) → l ≤ n → k ≤ l → Border s n l → Border s l k → Border s n k
Border-trans s n l k h g b c j lt =
    c j lt
    ∙ b ((l - k) + j) (omega arith)
    ∙ ap s (let same : (n - l) + ((l - k) + j) ≡ (n - k) + j = omega arith in same)

-- The shorter of two borders is a border of the longer.
pub Border-inner :
    (s : ℕ → ℕ) (n l k : ℕ) → l ≤ n → k ≤ l → Border s n l → Border s n k → Border s l k
Border-inner s n l k h g b c j lt =
    c j lt
    ∙ ap s (let same : (n - k) + j ≡ (n - l) + ((l - k) + j) = omega arith in same)
    ∙ sym (b ((l - k) + j) (omega arith))
