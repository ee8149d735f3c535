-- ===== src/ListSort/Tests.antt =====
-- Runs of the sort.
use c_programming_language.Base.{◌≡◌, refl, none, some, [], ◌∷◌, arith}
use c_programming_language.Base.Int.{pos}
use c_programming_language.Memory.{null, Store, Ends, set_cell, load, store, allocate}
use c_programming_language.Memory.Chain.{Node, node, Cells, IsList}
use c_programming_language.ListSort.Sorted.{IsSortedList, sort-IsSortedList}
use c_programming_language.ListSort.{insert, sort, outer_loop, inner_loop}

-- 3, 1 and 2 at the addresses 1, 2 and 3
abbrev three : Store Node
three =
    set_cell (set_cell (set_cell (λ a. none) 1 (some (node (pos 3) 2))) 2 (some (node (pos 1) 3))) 3
      (some (node (pos 2) null))

sort_of_three :
    Ends
      (λ u t.
        (t 1 ≡ some (node (pos 1) 2))
        × (t 2 ≡ some (node (pos 2) 3))
        × (t 3 ≡ some (node (pos 3) null)))
      (sort 4 1 three)
unfolding sort outer_loop inner_loop load store
sort_of_three = (refl, refl, refl)

insert_of_three : Ends (λ h t. (h ≡ 4) × (t 4 ≡ some (node (pos 9) 1))) (insert 4 (pos 9) 1 three)
unfolding insert load store allocate
insert_of_three = (refl, refl)

abbrev three_cells : Cells
three_cells = (1, pos 3) ∷ (2, pos 1) ∷ (3, pos 2) ∷ []

three-IsList : IsList three 1 three_cells
three-IsList = record { head = refl; chain = ground arith }

sort-IsSortedList_example :
    Ends
      (λ u t. (ys : Cells) × IsList t 1 ys × IsSortedList three three_cells t ys)
      (sort 4 1 three)
sort-IsSortedList_example = sort-IsSortedList 4 three 1 three_cells three-IsList (omega arith)
