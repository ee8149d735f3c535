-- ===== src/ListInsert/Tests.antt =====
-- TreeAndList.c: runs of `insertList`, and the theorem at a concrete list.
use c_programming_language.Base.{◌≡◌, refl, none, some, [], ◌∷◌, arith}
use c_programming_language.Base.Int.{pos}
use c_programming_language.Memory.{null, Store, Ends, set_cell, load, store, allocate}
use c_programming_language.Memory.Chain.{Node, node, Cells, values, IsList}
use c_programming_language.LinkedList.{set_next}
use c_programming_language.ListSort.Sorted.{IsAscending}
use c_programming_language.ListInsert.{place_loop, insert_behind, insert_list}
use c_programming_language.ListInsert.Place.{inserted}
use c_programming_language.ListInsert.Linked.{insert_list_lem}

abbrev two : Store Node
two = set_cell (set_cell (λ a. none) 1 (some (node (pos 10) 2))) 2 (some (node (pos 20) null))

abbrev cells : Cells
cells = (1, pos 10) ∷ (2, pos 20) ∷ []

two-IsList : IsList two 1 cells
two-IsList = record { head = refl; chain = ground arith }

insert_list_lem_example :
    Ends
      (λ l t.
        IsList t l (inserted 3 (pos 15) cells) × IsAscending (values (inserted 3 (pos 15) cells)))
      (insert_list 3 3 (pos 15) 1 two)
insert_list_lem_example =
    insert_list_lem 3 two 3 (pos 15) 1 cells two-IsList (omega arith) refl (ground arith)
      (λ e. absurd (ground arith)) (omega arith)

-- A second 10 makes the list a cycle: the loop stops at the head itself.
same_as_head :
    Ends
      (λ l t. (l ≡ 1) × (t 1 ≡ some (node (pos 10) 3)) × (t 3 ≡ some (node (pos 10) 1)))
      (insert_list 3 3 (pos 10) 1 two)
unfolding insert_list insert_behind place_loop set_next load store allocate
same_as_head = (refl, refl, refl)
