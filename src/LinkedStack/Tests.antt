-- ===== src/LinkedStack/Tests.antt =====
-- Runs of the stack.
use c_programming_language.Base.{◌≡◌, refl, none, some, [], ◌∷◌, arith}
use c_programming_language.Base.Int.{pos}
use c_programming_language.Memory.{null, Store, Ends, set_cell, ◌>>=◌}
use c_programming_language.Memory.Chain.{Node, node, Cells, IsList}
use c_programming_language.LinkedStack.{push, pop}
use c_programming_language.LinkedStack.Lifo.{Popped, pop_lem, pop-push}

abbrev empty : Store Node
empty a = none

abbrev two : Store Node
two = set_cell (set_cell empty 1 (some (node (pos 10) 2))) 2 (some (node (pos 20) null))

abbrev cells : Cells
cells = (1, pos 10) ∷ (2, pos 20) ∷ []

two-IsList : IsList two 1 cells
two-IsList = record { head = refl; chain = ground arith }

pop_lem_example : Popped two cells (pop 1 two)
pop_lem_example = pop_lem two 1 cells two-IsList

pop-push_example :
    Ends
      (λ a t. (a ≡ (pos 30, 1)) × IsList t a.1 cells × (t 3 ≡ none))
      ((push 3 (pos 30) 1 >>= pop) two)
pop-push_example = pop-push two 1 3 (pos 30) cells two-IsList (omega arith) refl
