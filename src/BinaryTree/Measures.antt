-- ===== src/BinaryTree/Measures.antt =====
-- DataStructures/BinaryTree/Main.c: the size, the depth, the search and the least value of a tree.
use mathlib.Core.List.{head?}
use native.Mathlib.Decide.{dec_lt}
use native.Mathlib.Nat.{pow-suc, pow-le-pow_right}
use native.Mathlib.Numerals.{towards_suc}
use c_programming_language.Base.{
  ℕ, zero, suc, ◌+◌, ◌≤◌, ◌<◌, ◌≡◌, refl, Bool, true, false, lt→ltb, Option, none, some, ◌∷◌, ltb,
  if◌then◌else◌, length, length-append, arith, ◌^◌,
}
use c_programming_language.Base.Int.{ℤ, ltb_ℤ, eqb_ℤ}
use c_programming_language.Base.Sorted.{
  IsSorted, IsSorted-split, has, has-append, Below-has, Above-has,
}
use c_programming_language.BinaryTree.{Tree, leaf, node, inorder}

unfoldable pub size : Tree → ℕ
size leaf = 0
size (node d l r) = size l + 1 + size r

unfoldable pub max_depth : Tree → ℕ
max_depth leaf = 0
max_depth (node d l r) =
    let l_depth = max_depth l in
    let r_depth = max_depth r in if ltb r_depth l_depth then l_depth + 1 else r_depth + 1

unfoldable pub lookup : Tree → ℤ → Bool
lookup leaf target = false
lookup (node d l r) target =
    let left = lookup l target in
    let right = lookup r target in
    if eqb_ℤ target d then true else if ltb_ℤ target d then left else right

-- `while(temp->left!=NULL) temp=root->left;` with the left child of the root as the loop's only
-- other variable; `none` means that the fuel ran out.
min_value_loop : ℕ → (d : ℤ) → (temp_left root_left : Tree) → Option ℤ
min_value_loop zero d t rl = none
min_value_loop (suc fuel) d leaf rl = some d
min_value_loop (suc fuel) d (node x l r) leaf = none
min_value_loop (suc fuel) d (node x l r) (node y ll lr) = min_value_loop fuel y ll (node y ll lr)

-- `MinValue` of a root; NULL is read through before the loop, and is no argument here.
unfoldable pub min_value : ℕ → ℤ → Tree → Tree → Option ℤ
unfolding min_value_loop
min_value fuel d l r = min_value_loop fuel d l l

-- `Size` counts the values that `PrintTree` prints.
pub size-length : (t : Tree) → size t ≡ length (inorder t)
unfolding size inorder
size-length leaf = refl
size-length (node d l r) =
    omega (arith, length-append (inorder l) (d ∷ inorder r), size-length l, size-length r)

pow_mono : (a b : ℕ) → a ≤ b → 2 ^ a ≤ 2 ^ b
pow_mono a b h = pow-le-pow_right (omega arith) h

ltb-false : (a b : ℕ) → b ≤ a → ltb a b ≡ false
ltb-false a b h = ground arith

-- `MaxDepth` is at most `Size`, and `Size` is less than 2 to the power of `MaxDepth`.
pub max_depth_bounds : (t : Tree) → (max_depth t ≤ size t) × (size t < 2 ^ max_depth t)
unfolding max_depth size
max_depth_bounds leaf = omega arith
max_depth_bounds (node d l r) =
    let (dl, sl) = max_depth_bounds l in
    let (dr, sr) = max_depth_bounds r in
    elim (dec_lt (max_depth r) (max_depth l)) [
      | yes deeper ↦
          let wide = pow_mono (max_depth r) (max_depth l) (omega arith) in
          rw (lt→ltb _ _ deeper) (omega arith, simp towards_suc (rw pow-suc (omega arith)))
      | no shallow ↦
          let wide = pow_mono (max_depth l) (max_depth r) (omega arith) in
          rw (ltb-false (max_depth r) (max_depth l) (omega arith))
            (omega arith, simp towards_suc (rw pow-suc (omega arith)))
    ]

-- In a search tree `lookup` answers whether the value is among the keys.
pub lookup-has : (t : Tree) (k : ℤ) → IsSorted (inorder t) → lookup t k ≡ has k (inorder t)
unfolding lookup inorder has
lookup-has leaf k s = refl
lookup-has (node d l r) k s =
    let (below, above, sl, sr) = IsSorted-split (inorder l) d (inorder r) s in
    ground (
      arith,
      has-append k (inorder l) (d ∷ inorder r),
      lookup-has l k sl,
      lookup-has r k sr,
      Below-has k d (inorder l) below,
      Above-has k d (inorder r) above,
    )

-- Where the root has no left child, or one with no left child of its own, the least value.
abbrev pub reachable_min : ℤ → Tree → Option ℤ
reachable_min d leaf = some d
reachable_min d (node x leaf m) = some x
reachable_min d (node x (node y ll lr) m) = none

min_value_spin :
    (fuel : ℕ) (x y z : ℤ) (ll lr m : Tree)
    → min_value_loop fuel z (node y ll lr) (node x (node y ll lr) m) ≡ none
unfolding min_value_loop
min_value_spin zero x y z ll lr m = refl
min_value_spin (suc k) x y z ll lr m = min_value_spin k x y x ll lr m

-- With fuel for two tests or more, `MinValue` returns the value of the root that has no left child,
-- or else the value of a left child with no left child of its own. In any other tree it does
-- not return, whatever the fuel.
pub min_value-reachable :
    (fuel : ℕ) (d : ℤ) (l r : Tree) → min_value (suc (suc fuel)) d l r ≡ reachable_min d l
unfolding min_value min_value_loop
min_value-reachable fuel d leaf r = refl
min_value-reachable fuel d (node x leaf m) r = refl
min_value-reachable fuel d (node x (node y ll lr) m) r = min_value_spin (suc fuel) x y x ll lr m

-- What `MinValue` returns, if it does, is the first of the values in order.
pub reachable_min-head :
    (d m : ℤ) (l r : Tree) → reachable_min d l ≡ some m → head? (inorder (node d l r)) ≡ some m
unfolding inorder
reachable_min-head d m leaf r e = e
reachable_min-head d m (node x leaf lr) r e = e
reachable_min-head d m (node x (node y ll lm) lr) r e = cc
