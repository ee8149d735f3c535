-- ===== src/Deque/Tests.antt =====
-- Runs of the deque.
use c_programming_language.Base.{◌≡◌, refl, none, some, arith}
use c_programming_language.Base.Int.{pos}
use c_programming_language.Memory.{Ptr, null, Store, Ends, set_cell, ◌>>=◌}
use c_programming_language.Deque.{Node, Deque, insert_last, remove_last}
use c_programming_language.Deque.RoundTrip.{node, remove_last-insert_last}

abbrev two : Store Node
two =
    set_cell (set_cell (λ a. none) 1 (some (node (pos 10) 2 null))) 2 (some (node (pos 20) null 1))

abbrev two_deque : Deque
two_deque = record { head = 1; tail = 2; size = pos 2 }

remove_last-insert_last_example :
    Ends
      (λ p t. (p ≡ two_deque) × ((a : Ptr) → t a ≡ two a))
      ((insert_last 3 (pos 5) two_deque >>= remove_last) two)
remove_last-insert_last_example =
    remove_last-insert_last two two_deque 3 (pos 5) (pos 20) 1 (omega arith) refl (omega arith) refl
