-- ===== src/ArrayStack.antt =====
-- DataStructures/Stack/Stack2.c: a stack in an array of fixed capacity. `none` is an index out of
-- bounds; `push` and `pop` leave the tests for it to their callers.
mod Laws
mod Tests
use c_programming_language.Base.{ℕ, Bool, Option, none, some, ◌>>=◌, ◌==◌, if◌then◌else◌}
use c_programming_language.Base.Int.{ℤ, pos, negsuc, ◌+ℤ◌, eqb_ℤ, index}

-- The elements of the array are records with the one field `val`.
pub record Stack : Type 0 where
  pub capacity : ℕ
  pub top_of_stack : ℤ
  pub array : ℕ → ℤ

-- `a` is what `malloc` leaves in the array.
unfoldable pub init_stack : (ℕ → ℤ) → ℕ → Stack
init_stack a capacity = record { capacity = capacity; top_of_stack = negsuc 0; array = a }

unfoldable pub push : Stack → ℤ → Option Stack
push s x = do
  i ← index s.capacity (s.top_of_stack +ℤ pos 1)
  some (record s {
    top_of_stack = s.top_of_stack +ℤ pos 1;
    array = λ j. if i == j then x else s.array j;
  })

unfoldable pub pop : Stack → Option (ℤ × Stack)
pop s = do
  i ← index s.capacity s.top_of_stack
  some (s.array i, record s { top_of_stack = s.top_of_stack +ℤ negsuc 0 })

unfoldable pub stack_is_full : Stack → Bool
stack_is_full s = eqb_ℤ s.top_of_stack (pos s.capacity +ℤ negsuc 0)

unfoldable pub is_empty_stack : Stack → Bool
is_empty_stack s = eqb_ℤ s.top_of_stack (negsuc 0)
