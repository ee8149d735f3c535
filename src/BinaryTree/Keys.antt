-- ===== src/BinaryTree/Keys.antt =====
-- DataStructures/BinaryTree/BInaryTree.c: the keys after an insertion and a deletion.
use mathlib.Core.List.{head?}
use c_programming_language.Base.{
  ◌≡◌, refl, sym, ◌∙◌, true, false, lt→ltb, some, List, [], ◌∷◌, ◌++◌, ◌>>=◌, All, arith,
}
use c_programming_language.Base.Int.{ℤ, eqb_ℤ, ge→ltb, dec_lt_ℤ, eq_of_parts}
use c_programming_language.Base.Sorted.{
  IsSorted, Above, IsSorted-split, insert_sorted, insert_sorted-left, insert_sorted-right,
  insert_sorted-same,
}
use c_programming_language.BinaryTree.{Tree, leaf, node, inorder, min_node}
use c_programming_language.BinaryTree.Search.{insert, delete_node}

-- In a search tree, and where memory is left, the keys in order after `insert` are those before
-- with `d` put at its place, or the same keys if `d` was among them.
pub inorder-insert :
    (t : Tree) (d : ℤ)
    → IsSorted (inorder t)
    → inorder (insert true t d) ≡ insert_sorted d (inorder t)
unfolding insert inorder insert_sorted
inorder-insert leaf d s = refl
inorder-insert (node x l r) d s =
    let (below, above, sl, sr) = IsSorted-split (inorder l) x (inorder r) s in
    elim (dec_lt_ℤ d x) [
      | yes less ↦ rw (
        lt→ltb _ _ less,
        insert_sorted-left d (inorder l) x (inorder r) less,
        inorder-insert l d sl,
      )
      | no ge ↦ elim (dec_lt_ℤ x d) [
        | yes more ↦ rw (
          ge→ltb d x (omega arith),
          lt→ltb _ _ more,
          insert_sorted-right d (inorder l) x (inorder r) below more,
          inorder-insert r d sr,
        )
        | no le ↦
            rw (ge→ltb d x (omega arith), ge→ltb x d (omega arith))
              (sym (
                insert_sorted-same d (inorder l) x (inorder r) below
                  (eq_of_parts d x (omega arith))))
      ]
    ]

pub insert-malloc_fails : (t : Tree) (d : ℤ) → insert false t d ≡ t
unfolding insert
insert-malloc_fails leaf d = refl
insert-malloc_fails (node x l r) d =
    ground (arith, insert-malloc_fails l d, insert-malloc_fails r d)

-- the key is not in the list
abbrev pub Absent : ℤ → List ℤ → Type 0
Absent d = All (λ y. ¬ (y ≡ d))

Absent-Above : (d : ℤ) (xs : List ℤ) → Above d xs → Absent d xs
Absent-Above d [] a = tt
Absent-Above d (y ∷ ys) a = ((λ p. ground arith), Absent-Above d ys a.1)

Absent-append : (d : ℤ) (xs ys : List ℤ) → Absent d (xs ++ ys) → Absent d xs × Absent d ys
Absent-append d [] ys a = (tt, a)
Absent-append d (x ∷ xs) ys a = let (p, q) = Absent-append d xs ys a.1 in ((a.0, p), q)

eqb_ne : (a b : ℤ) → ¬ (a ≡ b) → eqb_ℤ a b ≡ false
eqb_ne a b h = ground (arith, eq_of_parts a b)

eqb_self : (a : ℤ) → eqb_ℤ a a ≡ true
eqb_self a = ground arith

-- The deletion of a key that is not there returns the tree as it was.
pub delete_node-Absent : (t : Tree) (k : ℤ) → Absent k (inorder t) → delete_node t k ≡ some t
unfolding delete_node inorder
delete_node-Absent leaf k a = refl
delete_node-Absent (node x l r) k a =
    let (al, ar) = Absent-append k (inorder l) (x ∷ inorder r) a in
    elim (dec_lt_ℤ k x) [
      | yes less ↦ rw (eqb_ne x k ar.0, lt→ltb _ _ less, delete_node-Absent l k al)
      | no ge ↦ elim (dec_lt_ℤ x k) [
        | yes more ↦ rw (
          eqb_ne x k ar.0,
          ge→ltb k x (omega arith),
          lt→ltb _ _ more,
          delete_node-Absent r k ar.1,
        )
        | no le ↦ absurd (ar.0 (eq_of_parts x k (omega arith)))
      ]
    ]

-- `min_node` finds the least key of a search tree: the first of the keys in order.
pub min_node-inorder : (t : Tree) → min_node t ≡ head? (inorder t)
unfolding min_node inorder
min_node-inorder leaf = refl
min_node-inorder (node d leaf r) = refl
min_node-inorder (node d (node x l rl) r) = min_node-inorder (node x l rl) ∙ head-append (inorder l)
  where
    head-append :
        (xs : List ℤ)
        → head? (xs ++ x ∷ inorder rl) ≡ head? ((xs ++ x ∷ inorder rl) ++ d ∷ inorder r)
    head-append [] = refl
    head-append (y ∷ ys) = refl

delete_node-root :
    (k : ℤ) (l r : Tree)
    → delete_node r k ≡ some r
    → delete_node (node k l r) k ≡ (min_node r >>= λ c. some (node c l leaf))
unfolding delete_node
delete_node-root k l r kept = rw (eqb_self k, kept)

-- Where the root of a search tree holds the key, `delete_node` returns the least key of the right
-- subtree over the left subtree alone, so that all the other keys on the right are lost; where
-- there is no right subtree it reads through NULL.
pub delete_node-loses :
    (k : ℤ) (l r : Tree)
    → IsSorted (inorder (node k l r))
    → delete_node (node k l r) k ≡ (head? (inorder r) >>= λ c. some (node c l leaf))
unfolding inorder
delete_node-loses k l r s =
    let above = (IsSorted-split (inorder l) k (inorder r) s).1 in
    rw (← min_node-inorder r)
      (delete_node-root k l r (delete_node-Absent r k (Absent-Above k (inorder r) above)))
