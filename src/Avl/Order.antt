-- ===== src/Avl/Order.antt =====
-- AVL_tree.c: the keys of a tree, read in order, after a rotation, an insertion and a deletion.
use mathlib.Core.List.{append_assoc}
use c_programming_language.Base.{
  ℕ, ◌+◌, ◌≡◌, refl, sym, ap, inl, inr, Bool, true, false, Bool-cases, ltb→lt, Option, none, some,
  List, ◌∷◌, ◌++◌, ◌>>=◌, if◌then◌else◌, arith,
}
use c_programming_language.Base.Int.{ℤ, pos, negsuc, ltb_ℤ, eq_of_parts}
use c_programming_language.Base.Sorted.{
  IsSorted, IsSorted-split, insert_sorted, insert_sorted-left, insert_sorted-right,
  insert_sorted-same,
}
use c_programming_language.Avl.{
  Tree, leaf, node, max, height, inorder, create_node, get_balance, right_rotate, left_rotate,
  insert_left_heavy, insert_right_heavy, insert_rebalance, insert,
}

-- Where there is a tree, its keys in order are `xs`.
abbrev pub Reads : List ℤ → Option Tree → Type 0
Reads xs none = Unit
Reads xs (some t) = inorder t ≡ xs

pub Reads-if :
    (b : Bool) (xs : List ℤ) (m k : Option Tree)
    → Reads xs m
    → Reads xs k
    → Reads xs (if b then m else k)
Reads-if true xs m k p q = p
Reads-if false xs m k p q = q

pub Reads-bind :
    (xs ys : List ℤ) (m : Option Tree) (f : Tree → Option Tree)
    → Reads xs m
    → ((t : Tree) → inorder t ≡ xs → Reads ys (f t))
    → Reads ys (m >>= f)
Reads-bind xs ys none f p next = tt
Reads-bind xs ys (some t) f p next = next t p

pub Reads-cast : {xs ys : List ℤ} (m : Option Tree) → xs ≡ ys → Reads xs m → Reads ys m
Reads-cast m e p = rw e at p

pub right_rotate-Reads : (t : Tree) → Reads (inorder t) (right_rotate t)
unfolding right_rotate inorder
right_rotate-Reads leaf = tt
right_rotate-Reads (node y h leaf r) = tt
right_rotate-Reads (node y h (node x xh xl t) r) =
    sym (append_assoc (inorder xl) (x ∷ inorder t) (y ∷ inorder r))

pub left_rotate-Reads : (t : Tree) → Reads (inorder t) (left_rotate t)
unfolding left_rotate inorder
left_rotate-Reads leaf = tt
left_rotate-Reads (node x h l leaf) = tt
left_rotate-Reads (node x h l (node y yh t yr)) =
    append_assoc (inorder l) (x ∷ inorder t) (y ∷ inorder yr)

module _ (x : ℤ) (h : ℕ) (l r : Tree) where
  abbrev pub keys : List ℤ
  keys = inorder l ++ x ∷ inorder r

  pub left_right-Reads : Reads keys (left_rotate l >>= λ l'. right_rotate (node x h l' r))
  unfolding inorder
  left_right-Reads = Reads-bind (inorder l) keys (left_rotate l) _ (left_rotate-Reads l) λ l' e.
      Reads-cast (right_rotate (node x h l' r)) (ap (λ z. z ++ x ∷ inorder r) e)
        (right_rotate-Reads (node x h l' r))

  pub right_left-Reads : Reads keys (right_rotate r >>= λ r'. left_rotate (node x h l r'))
  unfolding inorder
  right_left-Reads = Reads-bind (inorder r) keys (right_rotate r) _ (right_rotate-Reads r) λ r' e.
      Reads-cast (left_rotate (node x h l r')) (ap (λ z. inorder l ++ x ∷ z) e)
        (left_rotate-Reads (node x h l r'))

insert_left_heavy-Reads :
    (d x : ℤ) (h : ℕ) (l r : Tree) → Reads (inorder (node x h l r)) (insert_left_heavy d x h l r)
unfolding insert_left_heavy inorder
insert_left_heavy-Reads d x h leaf r = tt
insert_left_heavy-Reads d x h (node lx lh ll lr) r =
    let l = node lx lh ll lr in
    Reads-if (ltb_ℤ d lx) _ _ _ (right_rotate-Reads (node x h l r))
      (Reads-if (ltb_ℤ lx d) _ _ _ (left_right-Reads x h l r) refl)

insert_right_heavy-Reads :
    (d x : ℤ) (h : ℕ) (l r : Tree) → Reads (inorder (node x h l r)) (insert_right_heavy d x h l r)
unfolding insert_right_heavy inorder
insert_right_heavy-Reads d x h l leaf = tt
insert_right_heavy-Reads d x h l (node rx rh rl rr) =
    let r = node rx rh rl rr in
    Reads-if (ltb_ℤ rx d) _ _ _ (left_rotate-Reads (node x h l r))
      (Reads-if (ltb_ℤ d rx) _ _ _ (right_left-Reads x h l r) refl)

insert_rebalance-Reads :
    (d x : ℤ) (l r : Tree) → Reads (inorder l ++ x ∷ inorder r) (insert_rebalance d x l r)
unfolding insert_rebalance inorder
insert_rebalance-Reads d x l r =
    let h = max (height l) (height r) + 1 in
    let b = get_balance (node x h l r) in
    let xs = inorder l ++ x ∷ inorder r in
    Reads-if (ltb_ℤ (pos 1) b) xs _ _ (insert_left_heavy-Reads d x h l r) (
      Reads-if (ltb_ℤ b (negsuc 0)) xs _ (some (node x h l r)) (insert_right_heavy-Reads d x h l r)
        refl)

pub insert-Reads :
    (t : Tree) (d : ℤ)
    → IsSorted (inorder t)
    → Reads (insert_sorted d (inorder t)) (insert true t d)
unfolding insert inorder create_node insert_sorted
insert-Reads leaf d s = refl
insert-Reads (node x h l r) d s =
    let (below, above, sl, sr) = IsSorted-split (inorder l) x (inorder r) s in
    let xs = inorder l in
    let ys = inorder r in
    elim (Bool-cases (ltb_ℤ d x)) [
      | inl e ↦
          rw (e, insert_sorted-left d xs x ys (ltb→lt _ _ e))
            (Reads-bind (insert_sorted d xs) _ (insert true l d) _ (insert-Reads l d sl)
              λ l' e'. rw (← e') (insert_rebalance-Reads d x l' r))
      | inr ne ↦ elim (Bool-cases (ltb_ℤ x d)) [
        | inl e ↦
            rw (ne, e, insert_sorted-right d xs x ys below (ltb→lt _ _ e))
              (Reads-bind (insert_sorted d ys) _ (insert true r d) _ (insert-Reads r d sr)
                λ r' e'. rw (← e') (insert_rebalance-Reads d x l r'))
        | inr n ↦
            rw (ne, n) (sym (insert_sorted-same d xs x ys below (eq_of_parts d x (ground arith))))
      ]
    ]
