-- ===== src/MaxSub/Tests.antt =====
-- Runs of the search for the greatest sum.
use c_programming_language.Base.{
  ℕ, ◌≡◌, refl, none, some, ◌^◌, ◌-◌, List, [], ◌∷◌, if◌then◌else◌, get_or,
}
use c_programming_language.Base.Int.{ℤ, pos, negsuc, ◌+ℤ◌, ltb_ℤ}
use c_programming_language.MaxSub.{add_int, max_sub, mid_sub, left_loop, right_loop}

-- 2, -3, 4, -1, 5
abbrev five : List ℤ
five = pos 2 ∷ negsuc 2 ∷ pos 4 ∷ negsuc 0 ∷ pos 5 ∷ []

abbrev greatest_of : ℤ → ℤ → ℤ → ℤ
greatest_of a b c = let m = if ltb_ℤ a b then b else a in if ltb_ℤ m c then c else m

two_largest : max_sub greatest_of 3 (λ i. pos (2 ^ 31 - 1)) 0 2 ≡ none
unfolding max_sub mid_sub left_loop right_loop add_int ◌+ℤ◌
two_largest = refl

max_sub_of_five : max_sub greatest_of 5 (λ i. get_or five i (pos 0)) 0 5 ≡ some (pos 8)
unfolding max_sub mid_sub left_loop right_loop add_int ◌+ℤ◌
max_sub_of_five = refl

-- 2, -3
abbrev two : ℕ → ℤ
two i = get_or (pos 2 ∷ negsuc 2 ∷ []) i (pos 0)
