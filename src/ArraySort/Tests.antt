-- ===== src/ArraySort/Tests.antt =====
-- The array of main.
use c_programming_language.Base.{ℕ, ◌≡◌, refl, [], ◌∷◌, get_or, arith}
use c_programming_language.Base.Int.{ℤ, pos, ◌≤ℤ◌}
use c_programming_language.ArraySort.{sort_array}
use c_programming_language.ArraySort.Sorted.{Rearranged, sort_array_lem}

abbrev numbers : ℕ → ℤ
numbers i = pos (get_or (10 ∷ 5 ∷ 6 ∷ 3 ∷ 4 ∷ 8 ∷ 7 ∷ 9 ∷ 1 ∷ 2 ∷ []) i 0)

sorted_fourth : sort_array numbers 3 ≡ pos 4
unfolding sort_array
sorted_fourth = refl

sort_array_lem_example :
    (sort_array numbers 2 ≤ℤ sort_array numbers 8) × Rearranged numbers (sort_array numbers)
sort_array_lem_example = sort_array_lem numbers 2 8 (omega arith) (omega arith)
