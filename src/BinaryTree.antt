-- ===== src/BinaryTree.antt =====
-- DataStructures/BinaryTree: the binary trees of integers that its three programs share. A pointer
-- to a node is a tree and NULL is `leaf`: a node has one owner, so a function that updates the
-- nodes below its argument returns the new tree.
pub mod Keys
pub mod Search
pub mod Measures
pub mod Growth
mod Tests
use c_programming_language.Base.{List, [], ◌∷◌, ◌++◌, Bool, true, false, Option, none, some}
use c_programming_language.Base.Int.{ℤ}

pub data Tree : Type 0 where
  leaf : Tree
  node : ℤ → Tree → Tree → Tree

-- what `inorder` prints
unfoldable pub inorder : Tree → List ℤ
inorder leaf = []
inorder (node d l r) = inorder l ++ d ∷ inorder r

-- The argument says whether `malloc` succeeds.
unfoldable pub create_node : Bool → ℤ → Tree
create_node true k = node k leaf leaf
create_node false k = leaf

-- the data of the node that the loop of `min_node` stops at, `none` for NULL
unfoldable pub min_node : Tree → Option ℤ
min_node leaf = none
min_node (node d leaf r) = some d
min_node (node d (node ld ll lr) r) = min_node (node ld ll lr)
