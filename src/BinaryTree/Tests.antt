-- ===== src/BinaryTree/Tests.antt =====
-- DataStructures/BinaryTree: the insertions of `main` in BInaryTree.c, and the theorems at trees.
use mathlib.Core.List.{head?}
use c_programming_language.Base.{◌≡◌, refl, true, false, arith}
use c_programming_language.Base.Int.{pos}
use c_programming_language.Base.Sorted.{IsSorted, insert_sorted}
use c_programming_language.BinaryTree.{Tree, leaf, node, inorder, min_node}
use c_programming_language.BinaryTree.Search.{insert}
use c_programming_language.BinaryTree.Keys.{inorder-insert, min_node-inorder, insert-malloc_fails}

abbrev built : Tree
built =
    node (pos 10) (node (pos 5) (node (pos 1) leaf (node (pos 4) leaf leaf)) leaf)
      (node (pos 50) leaf leaf)

insert_all :
    insert true
      (insert true (insert true (insert true (insert true leaf (pos 10)) (pos 5)) (pos 1)) (pos 50))
      (pos 4)
    ≡ built
unfolding insert
insert_all = refl

built-IsSorted : IsSorted (inorder built)
unfolding inorder
built-IsSorted = omega arith

inorder-insert_example : inorder (insert true built (pos 7)) ≡ insert_sorted (pos 7) (inorder built)
inorder-insert_example = inorder-insert built (pos 7) built-IsSorted

insert-malloc_fails_example : insert false built (pos 7) ≡ built
insert-malloc_fails_example = insert-malloc_fails built (pos 7)

min_node-inorder_example : min_node built ≡ head? (inorder built)
min_node-inorder_example = min_node-inorder built

abbrev low : Tree
low = node (pos 5) (node (pos 1) leaf (node (pos 4) leaf leaf)) leaf

abbrev high : Tree
high = node (pos 50) (node (pos 40) leaf leaf) (node (pos 60) leaf leaf)
