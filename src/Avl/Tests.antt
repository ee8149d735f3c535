-- ===== src/Avl/Tests.antt =====
-- AVL_tree.c: the insertions of `main`, and the theorems at its trees.
use c_programming_language.Base.{
  ◌≡◌, refl, true, some, ◌∷◌, ◌++◌, ◌≤◌, ◌/◌, ◌^◌, List, [], map, Bool, arith,
}
use c_programming_language.Base.Int.{ℤ, pos}
use c_programming_language.Base.Sorted.{IsSorted}
use c_programming_language.Avl.{
  Tree, leaf, node, height, inorder, create_node, min_node, right_rotate, left_rotate,
  insert_left_heavy, insert_right_heavy, insert_rebalance, insert, insert_all, delete_rebalance,
  delete_here, delete_node, max,
}
use c_programming_language.Avl.Correct.{IsSearchTree, Inserted, insert_refines}
use c_programming_language.Avl.Height.{insert_all-height}
use c_programming_language.Avl.Delete.{delete_node-duplicates, delete_node-Absent}
use c_programming_language.Avl.Order.{Reads}

abbrev keys : List (Bool × ℤ)
keys = map (λ d. (true, d)) (pos 2 ∷ pos 1 ∷ pos 37 ∷ pos 47 ∷ pos 51 ∷ pos 332 ∷ pos 890 ∷ [])

abbrev one : Tree
one = node (pos 1) 1 leaf leaf

abbrev last : Tree
last = node (pos 890) 1 leaf leaf

abbrev low : Tree
low = node (pos 2) 2 one (node (pos 37) 1 leaf leaf)

abbrev high : Tree
high = node (pos 332) 2 (node (pos 51) 1 leaf leaf) last

abbrev built : Tree
built = node (pos 47) 3 low high

built_lem : insert_all leaf keys ≡ some built
unfolding insert_all insert insert_rebalance insert_left_heavy insert_right_heavy left_rotate
    right_rotate create_node max
built_lem = refl

low-IsSearchTree : IsSearchTree low
unfolding inorder max
low-IsSearchTree = record { balanced = omega arith; sorted = omega arith }

insert_refines_example : (u : Tree) × (insert true low (pos 50) ≡ some u) × Inserted low (pos 50) u
insert_refines_example = insert_refines low (pos 50) low-IsSearchTree

insert_all-height_example :
    (t : Tree) × (insert_all leaf keys ≡ some t) × IsSearchTree t × (2 ^ (height t / 2) ≤ 8)
insert_all-height_example = insert_all-height keys

delete_node-Absent_example : Reads (inorder low) (delete_node low (pos 5))
unfolding inorder
delete_node-Absent_example =
    delete_node-Absent low (pos 5) ((λ e. cc), ((λ e. cc), ((λ e. cc), tt)))

-- 47 is gone, and 51 stands twice
delete_root : delete_node built (pos 47) ≡ some (node (pos 51) 3 low high)
unfolding delete_node delete_here delete_rebalance min_node max
delete_root = refl

delete_node-duplicates_example :
    (c : ℤ) × (min_node high ≡ some c)
    × (inorder (node (pos 51) 3 low high) ≡ inorder low ++ c ∷ inorder high)
    × ¬ IsSorted (inorder (node (pos 51) 3 low high))
unfolding inorder
delete_node-duplicates_example =
    delete_node-duplicates (pos 47) 3 low high (node (pos 51) 3 low high) (omega arith) (λ e. cc)
      (λ e. cc) delete_root
