-- ===== src/Avl/Height.antt =====
-- AVL_tree.c: the height of a tree that insertions build.
use c_programming_language.Base.{
  ℕ, zero, suc, ◌+◌, ◌/◌, ◌^◌, ◌≤◌, ◌≡◌, refl, ap, Bool, true, false, some, List, [], ◌∷◌, arith,
  length, length-append,
}
use c_programming_language.Base.Int.{ℤ}
use c_programming_language.Base.Sorted.{insert_sorted}
use c_programming_language.Avl.{Tree, leaf, node, height, inorder, insert_all}
use c_programming_language.Avl.Correct.{
  IsSearchTree, insert_refines, insert_out_of_memory, size, least_size, least_size-suc,
  least_size-le-size,
}

length-inorder : (t : Tree) → length (inorder t) ≡ size t
unfolding inorder size
length-inorder leaf = refl
length-inorder (node d h l r) =
    omega (arith, length-append (inorder l) (d ∷ inorder r), length-inorder l, length-inorder r)

length-insert_sorted : (d : ℤ) (xs : List ℤ) → length (insert_sorted d xs) ≤ length xs + 1
unfolding insert_sorted
length-insert_sorted d [] = omega arith
length-insert_sorted d (x ∷ xs) = ground (arith, length-insert_sorted d xs)

-- What insertions into `t` come to.
pub record Built (t : Tree) (ds : List (Bool × ℤ)) (u : Tree) : Type 0 where
  pub valid : IsSearchTree u
  pub small : size u ≤ size t + length ds

insert_all-Built :
    (ds : List (Bool × ℤ)) (t : Tree)
    → IsSearchTree t
    → (u : Tree) × (insert_all t ds ≡ some u) × Built t ds u
unfolding insert_all
insert_all-Built [] t v = (t, refl, record { valid = v; small = omega arith })
insert_all-Built ((false, d) ∷ ds) t v =
    let (u, rest, built) = insert_all-Built ds t v in
    (
      u,
      rw (insert_out_of_memory t d v.balanced) rest,
      record { valid = built.valid; small = omega (arith, built.small) },
    )
insert_all-Built ((true, d) ∷ ds) t v =
    let (w, run, is) = insert_refines t d v in
    let (u, rest, built) = insert_all-Built ds w is.valid in
    (
      u,
      rw run rest,
      record {
        valid = built.valid;
        small = omega (
          arith,
          built.small,
          length-inorder t,
          length-inorder w,
          length-insert_sorted d (inorder t),
          ap length is.keys,
        );
      },
    )

-- Two levels more double the least size.
power-least_size : (n : ℕ) → 2 ^ (n / 2) ≤ least_size n + 1
unfolding least_size
power-least_size zero = omega arith
power-least_size (suc zero) = omega arith
power-least_size (suc (suc n)) =
    let e : suc (suc n) / 2 ≡ suc (n / 2) = omega arith in
    rw e (omega (arith, power-least_size n, least_size-suc n))

leaf-IsSearchTree : IsSearchTree leaf
unfolding inorder
leaf-IsSearchTree = record { balanced = tt; sorted = tt }

-- Whatever malloc returns, insertions into the empty tree read no NULL pointer and build a balanced
-- search tree, whose height is logarithmic in their number: two to the power of half the height is at most one
-- more than the number of insertions.
pub insert_all-height :
    (ds : List (Bool × ℤ))
    → (t : Tree) × (insert_all leaf ds ≡ some t)
      × IsSearchTree t
      × (2 ^ (height t / 2) ≤ length ds + 1)
unfolding size
insert_all-height ds =
    let (t, run, built) = insert_all-Built ds leaf leaf-IsSearchTree in
    (
      t,
      run,
      built.valid,
      omega (
        arith,
        built.small,
        least_size-le-size t built.valid.balanced,
        power-least_size (height t),
      ),
    )
