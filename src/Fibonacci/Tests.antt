-- ===== src/Fibonacci/Tests.antt =====
-- The numbers up to the seventh.
use c_programming_language.Base.{◌≡◌, refl, some, none, List, [], ◌∷◌, leb, if◌then◌else◌}
use c_programming_language.Base.Int.{ℤ, pos, negsuc}
use c_programming_language.Fibonacci.{write_numbers}
use c_programming_language.Fibonacci.Numbers.{fibs_from, write_numbers_lem}

abbrev inputs : List ℤ
inputs = pos 1 ∷ negsuc 3 ∷ pos 7 ∷ []

seven : write_numbers inputs ≡ some (1 ∷ 1 ∷ 2 ∷ 3 ∷ 5 ∷ 8 ∷ 13 ∷ [])
unfolding write_numbers
seven = refl

write_numbers_lem_example : write_numbers inputs ≡ (if leb 7 46 then some (fibs_from 1 7) else none)
write_numbers_lem_example = write_numbers_lem inputs 7 refl
