-- ===== src/Avl/Correct.antt =====
-- AVL_tree.c: what an insertion and a rotation come to.
use Prim.Native.Nat
use mathlib.Core.Logic.{◌≢◌}
use native.Mathlib.Decide.{dec_lt}
use c_programming_language.Base.{
  ℕ, zero, suc, ◌+◌, ◌≤◌, ◌≡◌, refl, true, false, lt→ltb, Option, none, some, ◌>>=◌, arith,
}
use c_programming_language.Base.Int.{ℤ, ge→ltb, dec_lt_ℤ}
use c_programming_language.Base.Sorted.{IsSorted, insert_sorted, insert_sorted-IsSorted}
use c_programming_language.Avl.{
  Tree, leaf, node, max, height, inorder, create_node, right_rotate, left_rotate, insert,
}
use c_programming_language.Avl.Balance.{
  max_lem, IsAvl, GrownTo, insert-GrownTo, insert_rebalance-flat,
}
use c_programming_language.Avl.Order.{Reads, insert-Reads}

-- A search tree with the balance of an AVL tree.
pub record IsSearchTree (t : Tree) : Type 0 where
  pub balanced : IsAvl t
  pub sorted : IsSorted (inorder t)

-- What an insertion of `d` into `t` has to return.
pub record Inserted (t : Tree) (d : ℤ) (u : Tree) : Type 0 where
  pub valid : IsSearchTree u
  pub keys : inorder u ≡ insert_sorted d (inorder t)
  pub higher : height u ≤ height t + 1

combine :
    (t : Tree) (d : ℤ) (o : Option Tree)
    → IsSorted (inorder t)
    → GrownTo d (height t) o
    → Reads (insert_sorted d (inorder t)) o
    → (u : Tree) × (o ≡ some u) × Inserted t d u
combine t d none s g p = absurd g
combine t d (some u) s g p = (
  u,
  refl,
  record {
    valid = record { balanced = g.0; sorted = rw p (insert_sorted-IsSorted d (inorder t) s) };
    keys = p;
    higher = omega (arith, g.1);
  },
)

-- In a search tree, and where memory is left, `insert` reads no NULL pointer and returns a balanced
-- search tree that is at most one level higher; its keys in order are those of the old tree with
-- `d` put at its place, or the same keys if `d` was among them.
pub insert_refines :
    (t : Tree) (d : ℤ) → IsSearchTree t → (u : Tree) × (insert true t d ≡ some u) × Inserted t d u
insert_refines t d v =
    combine t d (insert true t d) v.sorted (insert-GrownTo t d v.balanced)
      (insert-Reads t d v.sorted)

-- If `malloc` fails, `insert` returns the balanced tree as it was.
pub insert_out_of_memory : (t : Tree) (d : ℤ) → IsAvl t → insert false t d ≡ some t
unfolding insert create_node
insert_out_of_memory leaf d a = refl
insert_out_of_memory (node x h l r) d a =
    let same = insert_rebalance-flat d x l r a.1 a.2 in
    let kept : some (node x (max (height l) (height r) + 1) l r) ≡ some (node x h l r) =
      rw a.0 refl in
    elim (dec_lt_ℤ d x) [
      | yes less ↦ rw (lt→ltb _ _ less, insert_out_of_memory l d a.3, same) kept
      | no not_less ↦ elim (dec_lt_ℤ x d) [
        | yes more ↦
            rw (ge→ltb d x (omega arith), lt→ltb _ _ more, insert_out_of_memory r d a.4, same) kept
        | no eq ↦ rw (ge→ltb d x (omega arith), ge→ltb x d (omega arith))
      ]
    ]

-- The stored heights at the two nodes that a rotation moves.
abbrev pub IsMeasured : Tree → Type 0
IsMeasured leaf = Unit
IsMeasured (node d h l r) = h ≡ max (height l) (height r) + 1

-- `left_rotate` undoes `right_rotate` on a tree whose root and left child store their heights
-- rightly.
pub left_rotate-right_rotate :
    (t : Tree) (d : ℤ) (h : ℕ) (r : Tree)
    → IsMeasured t
    → IsMeasured (node d h t r)
    → t ≢ leaf
    → (right_rotate (node d h t r) >>= left_rotate) ≡ some (node d h t r)
unfolding left_rotate right_rotate
left_rotate-right_rotate leaf d h r m n not_leaf = absurd (not_leaf refl)
left_rotate-right_rotate (node x xh xl t) d h r m n not_leaf = rw (← m) (rw (← n) refl)

-- The number of nodes.
unfoldable pub size : Tree → ℕ
size leaf = 0
size (node d h l r) = size l + size r + 1

-- The least number of nodes of an AVL tree of a given height.
unfoldable pub least_size : ℕ → ℕ
least_size zero = 0
least_size (suc zero) = 1
least_size (suc (suc n)) = least_size (suc n) + least_size n + 1

pub least_size-suc : (n : ℕ) → least_size n ≤ least_size (suc n)
unfolding least_size
least_size-suc zero = omega arith
least_size-suc (suc n) = omega arith

least_size-zero : least_size 0 ≤ 0
unfolding least_size
least_size-zero = omega arith

-- one more level over two trees that differ by one level at most
least_size_level : (n : ℕ) → least_size (suc n) ≤ least_size n + least_size n + 1
unfolding least_size
least_size_level zero = omega arith
least_size_level (suc n) = omega (arith, least_size-suc n)

least_size_node :
    (h a b : ℕ)
    → h ≡ Nat.max a b + 1
    → a ≤ b + 1
    → b ≤ a + 1
    → least_size h ≤ least_size a + least_size b + 1
unfolding least_size
least_size_node h a b e p q = elim (dec_lt a b) [
  | yes less ↦
      rw (let f : h ≡ suc (suc a) = omega arith in f, let g : b ≡ suc a = omega arith in g)
        (omega arith)
  | no not_less ↦ elim (dec_lt b a) [
    | yes more ↦
        rw (let f : h ≡ suc (suc b) = omega arith in f, let g : a ≡ suc b = omega arith in g)
          (omega arith)
    | no same ↦
        rw (let f : h ≡ suc b = omega arith in f, let g : a ≡ b = omega arith in g)
          (least_size_level b)
  ]
]

-- A balanced tree of height `h` has at least `least_size h` nodes.
pub least_size-le-size : (t : Tree) → IsAvl t → least_size (height t) ≤ size t
unfolding size
least_size-le-size leaf a = least_size-zero
least_size-le-size (node d h l r) a = omega (
  arith,
  least_size_node h (height l) (height r) (omega (arith, a.0, max_lem (height l) (height r))) a.1
      a.2,
  least_size-le-size l a.3,
  least_size-le-size r a.4,
)
