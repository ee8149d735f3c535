-- ===== src/BinaryTree/Growth.antt =====
-- DataStructures/BinaryTree/TreeAndList.c: the search tree that keeps equal values.
use c_programming_language.Base.{ℕ, ◌+◌, ◌&&◌, ◌≡◌, refl, Bool, true, false, if◌then◌else◌, arith}
use c_programming_language.Base.Int.{ℤ, ◌<ℤ◌, ◌≤ℤ◌, ltb_ℤ, eqb_ℤ}
use c_programming_language.BinaryTree.{Tree, leaf, node}

-- The first argument says whether `malloc` succeeds.
unfoldable pub insert_tree : Bool → Tree → ℤ → Tree
insert_tree true leaf d = node d leaf leaf
insert_tree false leaf d = leaf
insert_tree m (node x l r) d =
    let left = node x (insert_tree m l d) r in
    let right = node x l (insert_tree m r d) in if ltb_ℤ d x then left else right

abbrev AllKeys : (ℤ → Type 0) → Tree → Type 0
AllKeys P leaf = Unit
AllKeys P (node x l r) = AllKeys P l × P x × AllKeys P r

-- Less values on the left, equal and greater ones on the right.
abbrev pub IsOrdered : Tree → Type 0
IsOrdered leaf = Unit
IsOrdered (node x l r) =
    AllKeys (λ y. y <ℤ x) l × AllKeys (λ y. x ≤ℤ y) r × IsOrdered l × IsOrdered r

-- How often the value stands in the tree.
unfoldable pub count : ℤ → Tree → ℕ
count k leaf = 0
count k (node x l r) = count k l + (if eqb_ℤ k x then 1 else 0) + count k r

AllKeys-insert_tree :
    (P : ℤ → Type 0) (m : Bool) (t : Tree) (d : ℤ)
    → P d
    → AllKeys P t
    → AllKeys P (insert_tree m t d)
unfolding insert_tree
AllKeys-insert_tree P true leaf d p a = (tt, p, tt)
AllKeys-insert_tree P false leaf d p a = tt
AllKeys-insert_tree P m (node x l r) d p a =
    ground (arith, AllKeys-insert_tree P m l d, AllKeys-insert_tree P m r d)

-- `insertTree` keeps the tree ordered, and adds the value exactly once if memory is left and not
-- at all if it is not; every other value stands in the tree as often as before.
pub insert_tree_lem :
    (m : Bool) (t : Tree) (d : ℤ)
    → IsOrdered t
    → IsOrdered (insert_tree m t d)
      × ((k : ℤ) → count k (insert_tree m t d) ≡ count k t + (if m && eqb_ℤ k d then 1 else 0))
unfolding insert_tree count
insert_tree_lem true leaf d o = ((tt, tt, tt, tt), λ k. omega arith)
insert_tree_lem false leaf d o = (tt, λ k. refl)
insert_tree_lem m (node x l r) d o =
    let (ol, cl) = insert_tree_lem m l d o.2 in
    let (or, cr) = insert_tree_lem m r d o.3 in
    (
      ground (
        arith,
        ol,
        or,
        AllKeys-insert_tree (λ y. y <ℤ x) m l d,
        AllKeys-insert_tree (λ y. x ≤ℤ y) m r d,
      ),
      λ k. ground (arith, cl k, cr k),
    )
