-- ===== src/Avl.antt =====
-- DataStructures/AVL_tree.c: the balanced search tree. A pointer to a node is a tree, NULL is
-- `leaf`; a node has one owner, so a function that updates the nodes below `t` returns the new
-- tree. `none` is a dereference of NULL. The first argument of an operation that allocates says
-- whether `malloc` succeeds.
pub mod Order
pub mod Balance
pub mod Correct
pub mod Height
pub mod Delete
mod Tests
use c_programming_language.Base.{
  ℕ, ◌+◌, Bool, true, false, Option, none, some, List, [], ◌∷◌, ◌++◌, ltb, ◌>>=◌, if◌then◌else◌,
}
use c_programming_language.Base.Int.{ℤ, pos, negsuc, sub_ℕ, ltb_ℤ, leb_ℤ}

pub data Tree : Type 0 where
  leaf : Tree
  node : ℤ → ℕ → Tree → Tree → Tree

unfoldable pub max : ℕ → ℕ → ℕ
max a b = if ltb b a then a else b

abbrev pub height : Tree → ℕ
height leaf = 0
height (node d h l r) = h

unfoldable pub get_balance : Tree → ℤ
get_balance leaf = pos 0
get_balance (node d h l r) = sub_ℕ (height l) (height r)

unfoldable pub create_node : Bool → ℤ → Tree
create_node true d = node d 1 leaf leaf
create_node false d = leaf

-- what `inorder` prints
unfoldable pub inorder : Tree → List ℤ
inorder leaf = []
inorder (node d h l r) = inorder l ++ d ∷ inorder r

unfoldable pub min_node : Tree → Option ℤ
min_node leaf = none
min_node (node d h leaf r) = some d
min_node (node d h (node ld lh ll lr) r) = min_node (node ld lh ll lr)

unfoldable pub right_rotate : Tree → Option Tree
right_rotate leaf = none
right_rotate (node y h leaf r) = none
right_rotate (node y h (node x xh xl t) r) =
    let y' = node y (max (height t) (height r) + 1) t r in
    some (node x (max (height xl) (height y') + 1) xl y')

unfoldable pub left_rotate : Tree → Option Tree
left_rotate leaf = none
left_rotate (node x h l leaf) = none
left_rotate (node x h l (node y yh t yr)) =
    let x' = node x (max (height l) (height t) + 1) l t in
    some (node y (max (height x') (height yr) + 1) x' yr)

-- the body of `if(balance>1)` in `insert`
unfoldable pub insert_left_heavy : ℤ → ℤ → ℕ → Tree → Tree → Option Tree
insert_left_heavy d x h leaf r = none
insert_left_heavy d x h (node lx lh ll lr) r =
    if ltb_ℤ d lx
    then right_rotate (node x h (node lx lh ll lr) r)
    else if ltb_ℤ lx d
    then (do l ← left_rotate (node lx lh ll lr); right_rotate (node x h l r))
    else some (node x h (node lx lh ll lr) r)

-- the body of `if(balance<-1)` in `insert`
unfoldable pub insert_right_heavy : ℤ → ℤ → ℕ → Tree → Tree → Option Tree
insert_right_heavy d x h l leaf = none
insert_right_heavy d x h l (node rx rh rl rr) =
    if ltb_ℤ rx d
    then left_rotate (node x h l (node rx rh rl rr))
    else if ltb_ℤ d rx
    then (do r ← right_rotate (node rx rh rl rr); left_rotate (node x h l r))
    else some (node x h l (node rx rh rl rr))

-- from the update of the height on
unfoldable pub insert_rebalance : ℤ → ℤ → Tree → Tree → Option Tree
unfolding get_balance
insert_rebalance d x l r =
    let h = max (height l) (height r) + 1 in
    let balance = get_balance (node x h l r) in
    if ltb_ℤ (pos 1) balance
    then insert_left_heavy d x h l r
    else if ltb_ℤ balance (negsuc 0)
    then insert_right_heavy d x h l r
    else some (node x h l r)

unfoldable pub insert : Bool → Tree → ℤ → Option Tree
insert m leaf d = some (create_node m d)
insert m (node x h l r) d =
    let left : Option Tree = insert m l d >>= λ l'. insert_rebalance d x l' r in
    let right : Option Tree = insert m r d >>= λ r'. insert_rebalance d x l r' in
    if ltb_ℤ d x then left else if ltb_ℤ x d then right else some (node x h l r)

-- the body of `if(balance>1)` in `delete_node`
unfoldable pub delete_left_heavy : ℤ → ℕ → Tree → Tree → Option Tree
unfolding get_balance
delete_left_heavy x h l r =
    if leb_ℤ (pos 0) (get_balance l)
    then right_rotate (node x h l r)
    else (do l' ← left_rotate l; right_rotate (node x h l' r))

-- the body of `if(balance<-1)` in `delete_node`
unfoldable pub delete_right_heavy : ℤ → ℕ → Tree → Tree → Option Tree
unfolding get_balance
delete_right_heavy x h l r =
    if leb_ℤ (get_balance r) (pos 0)
    then left_rotate (node x h l r)
    else (do r' ← right_rotate r; left_rotate (node x h l r'))

unfoldable pub delete_rebalance : ℤ → Tree → Tree → Option Tree
unfolding get_balance
delete_rebalance x l r =
    let h = max (height l) (height r) + 1 in
    let balance = get_balance (node x h l r) in
    if ltb_ℤ (pos 1) balance
    then delete_left_heavy x h l r
    else if ltb_ℤ balance (negsuc 0)
    then delete_right_heavy x h l r
    else some (node x h l r)

-- the branch of `delete_node` that has found `d`; `k` is its case of two children
unfoldable pub delete_here : Tree → Tree → Option Tree → Option Tree
delete_here leaf r k = some r
delete_here (node y h ll lr) leaf k = some (node y h ll lr)
delete_here (node y h ll lr) (node z g rl rr) k = k

-- The function as written names its parameter `root`, and its callees `deleteNode`, `minValue`,
-- `getHeight`, `getBalance`, `leftRotate` and `rightRotate`; here they are the file's functions.
-- Where both children are there, the value of the right subtree's least node is copied into the
-- root, and `d` itself is removed from the right subtree.
unfoldable pub delete_node : Tree → ℤ → Option Tree
delete_node leaf d = some leaf
delete_node (node x h l r) d =
    let left : Option Tree = delete_node l d >>= λ l'. delete_rebalance x l' r in
    let right : Option Tree = delete_node r d >>= λ r'. delete_rebalance x l r' in
    let both : Option Tree =
      min_node r >>= λ c. delete_node r d >>= λ r'. delete_rebalance c l r' in
    if ltb_ℤ d x then left else if ltb_ℤ x d then right else delete_here l r both

-- Insertions one after another, as `main` makes them, each with the result of its `malloc`.
unfoldable pub insert_all : Tree → List (Bool × ℤ) → Option Tree
unfolding insert
insert_all t [] = some t
insert_all t ((m, d) ∷ ds) = insert m t d >>= λ u. insert_all u ds
