-- ===== src/BinaryTree/Search.antt =====
-- DataStructures/BinaryTree/BInaryTree.c: insertion and deletion. `none` is a dereference of NULL.
use c_programming_language.Base.{Bool, Option, some, ◌>>=◌, if◌then◌else◌}
use c_programming_language.Base.Int.{ℤ, ltb_ℤ, eqb_ℤ}
use c_programming_language.BinaryTree.{Tree, leaf, node, create_node, min_node}

unfoldable pub insert : Bool → Tree → ℤ → Tree
unfolding create_node
insert m leaf d = create_node m d
insert m (node x l r) d =
    let left = node x (insert m l d) r in
    let right = node x l (insert m r d) in
    if ltb_ℤ d x then left else if ltb_ℤ x d then right else node x l r

-- the last branch, that no integer reaches; `k` is its case of two children
unfoldable pub splice : Tree → Tree → Option Tree → Option Tree
splice leaf r k = some r
splice (node y ll lr) leaf k = some (node y ll lr)
splice (node y ll lr) (node z rl rr) k = k

-- Where the key is found, the successor goes into the root, the key is removed from the right
-- subtree, and then the pointer to the right subtree is set to NULL.
unfoldable pub delete_node : Tree → ℤ → Option Tree
unfolding min_node splice
delete_node leaf k = some leaf
delete_node (node x l r) k =
    let found : Option Tree = min_node r >>= λ c. delete_node r k >>= λ r'. some (node c l leaf) in
    let left : Option Tree = delete_node l k >>= λ l'. some (node x l' r) in
    let right : Option Tree = delete_node r k >>= λ r'. some (node x l r') in
    let other : Option Tree =
      splice l r (min_node r >>= λ c. delete_node r k >>= λ r'. some (node c l r')) in
    if eqb_ℤ x k then found else if ltb_ℤ k x then left else if ltb_ℤ x k then right else other
