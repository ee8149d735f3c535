-- ===== src/PrefixFunction/Tests.antt =====
-- The pattern of main, and the theorem there.
use c_programming_language.Base.{ℕ, ◌+◌, ◌<◌, ◌≡◌, refl, some, List, [], ◌∷◌, arith}
use c_programming_language.PrefixFunction.{char_at, compute_lps}
use c_programming_language.PrefixFunction.Borders.{IsLongest}
use c_programming_language.PrefixFunction.Longest.{compute_lps_lem}
use mathlib.Core.Option

-- "abababbaa"
abbrev pattern_of_main : List ℕ
pattern_of_main = b'a' ∷ b'b' ∷ b'a' ∷ b'b' ∷ b'a' ∷ b'b' ∷ b'b' ∷ b'a' ∷ b'a' ∷ []

abbrev entries : (ℕ → ℕ) → List ℕ
entries p = p 0 ∷ p 1 ∷ p 2 ∷ p 3 ∷ p 4 ∷ p 5 ∷ p 6 ∷ p 7 ∷ p 8 ∷ []

entries_of_main :
    Option.map entries (compute_lps 19 pattern_of_main 9 (λ _. 77))
    ≡ some (0 ∷ 0 ∷ 1 ∷ 2 ∷ 3 ∷ 4 ∷ 0 ∷ 1 ∷ 1 ∷ [])
unfolding compute_lps Option.map
entries_of_main = refl

compute_lps_lem_example :
    (p : ℕ → ℕ) × (compute_lps 19 pattern_of_main 9 (λ _. 77) ≡ some p)
    × ((j : ℕ) → j < 9 → IsLongest (char_at pattern_of_main) (j + 1) (p j))
compute_lps_lem_example = compute_lps_lem pattern_of_main (λ _. 77) 19 (omega arith) (omega arith)
