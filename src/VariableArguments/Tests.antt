-- ===== src/VariableArguments/Tests.antt =====
-- Calls of the functions with a variable argument list.
use c_programming_language.Base.{◌≡◌, refl, some, [], ◌∷◌}
use c_programming_language.Base.Int.{pos, ◌+ℤ◌}
use c_programming_language.VariableArguments.{sum, min}

sum_of_three : sum 3 (pos 7 ∷ pos 1 ∷ pos 5 ∷ []) ≡ some (pos 13)
unfolding sum ◌+ℤ◌
sum_of_three = refl

min_of_three : min 3 (pos 7 ∷ pos 5 ∷ pos 6 ∷ []) ≡ some (pos 1)
unfolding min
min_of_three = refl
