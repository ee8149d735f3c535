-- ===== src/ArrayStack/Tests.antt =====
-- Runs of the stack in an array.
use c_programming_language.Base.{◌≡◌, refl, false}
use c_programming_language.Base.Int.{pos, ◌+ℤ◌}
use c_programming_language.ArrayStack.{Stack, stack_is_full}

-- a stack of one element
abbrev one : Stack
one = record { capacity = 3; top_of_stack = pos 0; array = λ i. pos 8 }

one_not_full : stack_is_full one ≡ false
unfolding stack_is_full ◌+ℤ◌
one_not_full = refl
