-- ===== src/LinkedList/Tests.antt =====
-- DQ.c: runs, and the theorems at concrete lists.
use mathlib.Core.List.{reverse}
use c_programming_language.Base.{◌≡◌, refl, none, some, [], ◌∷◌, arith}
use c_programming_language.Base.Int.{pos}
use c_programming_language.Memory.{
  Ptr, null, Store, Ends, Cmd, set_cell, load, store, free, allocate, ◌>>=◌,
}
use c_programming_language.Memory.Chain.{Node, node, Cells, IsList, SameOutside}
use c_programming_language.LinkedList.{
  create_node, set_next, is_empty, reverse_loop, reverse_list, remove_first, last_two_loop,
  remove_last, insert_front, last_loop, insert_last, append,
}
use c_programming_language.LinkedList.Reverse.{reverse_list_lem}

-- the calls of `main`, with the addresses 1 to 7 from `malloc`, up to the last print
abbrev calls : Cmd Node Ptr
calls = do
  t ← append 9 1 null (pos 10)
  t ← append 9 2 t (pos 30)
  t ← append 9 3 t (pos 50)
  t ← insert_front 4 t (pos 100)
  t ← insert_front 5 t (pos 200)
  t ← insert_last 9 6 t (pos 3)
  t ← insert_last 9 7 t (pos 2)
  t ← remove_first t
  t ← remove_last 9 t
  reverse_list 9 t

calls_lem : Ends (λ t s. (t ≡ 6) × (s 6 ≡ some (node (pos 3) 3))) (calls (λ a. none))
unfolding append insert_front insert_last remove_first remove_last reverse_list reverse_loop
    last_loop last_two_loop create_node set_next is_empty load store free allocate
calls_lem = (refl, refl)

abbrev empty : Store Node
empty a = none

abbrev two : Store Node
two = set_cell (set_cell empty 1 (some (node (pos 10) 2))) 2 (some (node (pos 20) null))

abbrev cells : Cells
cells = (1, pos 10) ∷ (2, pos 20) ∷ []

two-IsList : IsList two 1 cells
two-IsList = record { head = refl; chain = ground arith }

abbrev one : Store Node
one = set_cell empty 1 (some (node (pos 10) null))

reverse_list_lem_example :
    Ends (λ l t. IsList t l (reverse cells) × SameOutside cells two t) (reverse_list 3 1 two)
reverse_list_lem_example = reverse_list_lem 3 two 1 cells two-IsList (omega arith)
