-- ===== src/Avl/Delete.antt =====
-- AVL_tree.c: `delete_node`, its names resolved.
use c_programming_language.Base.{
  ℕ, ◌+◌, ◌≡◌, ◌≢◌, refl, sym, ap, ◌∙◌, inl, inr, lt→ltb, Option, some, Option-cases, List, [], ◌∷◌,
  ◌++◌, ◌>>=◌, arith, All,
}
use c_programming_language.Base.Int.{ℤ, pos, negsuc, ltb_ℤ, leb_ℤ, ge→ltb, dec_lt_ℤ, eq_of_parts}
use c_programming_language.Base.Sorted.{IsSorted, Above, IsSorted-split}
use c_programming_language.Avl.{
  Tree, leaf, node, max, height, inorder, get_balance, min_node, delete_left_heavy,
  delete_right_heavy, delete_rebalance, delete_here, delete_node,
}
use c_programming_language.Avl.Order.{
  Reads, Reads-if, Reads-bind, right_rotate-Reads, left_rotate-Reads, left_right-Reads,
  right_left-Reads,
}

delete_left_heavy-Reads :
    (x : ℤ) (h : ℕ) (l r : Tree) → Reads (inorder (node x h l r)) (delete_left_heavy x h l r)
unfolding delete_left_heavy inorder
delete_left_heavy-Reads x h l r =
    Reads-if (leb_ℤ (pos 0) (get_balance l)) (inorder (node x h l r)) _ _
      (right_rotate-Reads (node x h l r)) (left_right-Reads x h l r)

delete_right_heavy-Reads :
    (x : ℤ) (h : ℕ) (l r : Tree) → Reads (inorder (node x h l r)) (delete_right_heavy x h l r)
unfolding delete_right_heavy inorder
delete_right_heavy-Reads x h l r =
    Reads-if (leb_ℤ (get_balance r) (pos 0)) (inorder (node x h l r)) _ _
      (left_rotate-Reads (node x h l r)) (right_left-Reads x h l r)

delete_rebalance-Reads :
    (x : ℤ) (l r : Tree) → Reads (inorder l ++ x ∷ inorder r) (delete_rebalance x l r)
unfolding delete_rebalance inorder
delete_rebalance-Reads x l r =
    let h = max (height l) (height r) + 1 in
    let b = get_balance (node x h l r) in
    let xs = inorder l ++ x ∷ inorder r in
    Reads-if (ltb_ℤ (pos 1) b) xs _ _ (delete_left_heavy-Reads x h l r) (
      Reads-if (ltb_ℤ b (negsuc 0)) xs _ (some (node x h l r)) (delete_right_heavy-Reads x h l r)
        refl)

-- the key is not in the list
abbrev pub Absent : ℤ → List ℤ → Type 0
Absent d = All (λ y. ¬ (y ≡ d))

Absent-Above : (x d : ℤ) (xs : List ℤ) → d ≡ x → Above x xs → Absent d xs
Absent-Above x d [] e a = tt
Absent-Above x d (y ∷ ys) e a = (λ p. ground arith, Absent-Above x d ys e a.1)

Absent-append : (d : ℤ) (xs ys : List ℤ) → Absent d (xs ++ ys) → Absent d xs × Absent d ys
Absent-append d [] ys a = (tt, a)
Absent-append d (x ∷ xs) ys a = let (p, q) = Absent-append d xs ys a.1 in ((a.0, p), q)

-- The keys are the same after the deletion of a key that is not there.
pub delete_node-Absent :
    (t : Tree) (d : ℤ) → Absent d (inorder t) → Reads (inorder t) (delete_node t d)
unfolding delete_node inorder
delete_node-Absent leaf d a = refl
delete_node-Absent (node x h l r) d a =
    let (al, ar) = Absent-append d (inorder l) (x ∷ inorder r) a in
    let xs = inorder l ++ x ∷ inorder r in
    elim (dec_lt_ℤ d x) [
      | yes less ↦ rw (lt→ltb _ _ less) (
          Reads-bind (inorder l) xs (delete_node l d) _ (delete_node-Absent l d al)
            λ l' e. rw (← e) (delete_rebalance-Reads x l' r))
      | no ge ↦ elim (dec_lt_ℤ x d) [
        | yes more ↦
            rw (ge→ltb d x (omega arith), lt→ltb _ _ more)
              (Reads-bind (inorder r) xs (delete_node r d) _ (delete_node-Absent r d ar.1)
                λ r' e. rw (← e) (delete_rebalance-Reads x l r'))
        | no le ↦ absurd (ar.0 (eq_of_parts x d (omega arith)))
      ]
    ]

min_node-inorder :
    (t : Tree) {c : ℤ} → min_node t ≡ some c → (rest : List ℤ) × (inorder t ≡ c ∷ rest)
unfolding min_node inorder
min_node-inorder leaf e = cc
min_node-inorder (node d h leaf r) e = (inorder r, cc)
min_node-inorder (node d h (node ld lh ll lr) r) e =
    let (rest, p) = min_node-inorder (node ld lh ll lr) e in
    (rest ++ d ∷ inorder r, ap (λ z. z ++ d ∷ inorder r) p)

-- the case of two children
both : Tree → Tree → ℤ → Option Tree
both l r d = min_node r >>= λ c. delete_node r d >>= λ r'. delete_rebalance c l r'

both-Reads :
    (l r : Tree) (d c : ℤ)
    → Absent d (inorder r)
    → min_node r ≡ some c
    → Reads (inorder l ++ c ∷ inorder r) (both l r d)
unfolding both
both-Reads l r d c absent e = rw e (
    Reads-bind (inorder r) (inorder l ++ c ∷ inorder r) (delete_node r d) _
      (delete_node-Absent r d absent) λ r' e'. rw (← e') (delete_rebalance-Reads c l r'))

delete_node-both :
    (d : ℤ) (h : ℕ) (l r : Tree) → l ≢ leaf → r ≢ leaf → delete_node (node d h l r) d ≡ both l r d
unfolding delete_node delete_here both
delete_node-both d h leaf r nl nr = absurd (nl refl)
delete_node-both d h (node a b p q) leaf nl nr = absurd (nr refl)
delete_node-both d h (node a b p q) (node v w m n) nl nr = rw (ge→ltb d d (omega arith))

-- a successor that stands twice is out of order
not-IsSorted-twice :
    (xs ys : List ℤ) (c : ℤ) (rest : List ℤ) → ys ≡ c ∷ rest → ¬ IsSorted (xs ++ c ∷ ys)
not-IsSorted-twice xs ys c rest e s =
    let above = (IsSorted-split xs c ys s).1 in
    let twice : Above c (c ∷ rest) = rw e at above in absurd (omega (arith, twice.0))

-- In a sorted tree whose root holds `d` and has two children, `delete_node` takes the successor
-- `c` of `d` into the root and leaves `c` in the right subtree too: where it returns a tree, that
-- tree holds as many keys as before, and its keys are not in strictly ascending order.
pub delete_node-duplicates :
    (d : ℤ) (h : ℕ) (l r u : Tree)
    → IsSorted (inorder (node d h l r))
    → l ≢ leaf
    → r ≢ leaf
    → delete_node (node d h l r) d ≡ some u
    → (c : ℤ) × (min_node r ≡ some c)
      × (inorder u ≡ inorder l ++ c ∷ inorder r)
      × ¬ IsSorted (inorder u)
unfolding inorder both
delete_node-duplicates d h l r u s nl nr e = elim (Option-cases (min_node r)) [
  | inl n ↦ cc (rw (delete_node-both d h l r nl nr, both, n) at e)
  | inr (c, m) ↦
      let above = (IsSorted-split (inorder l) d (inorder r) s).1 in
      let reads = both-Reads l r d c (Absent-Above d d (inorder r) refl above) m in
      let same : both l r d ≡ some u = sym (delete_node-both d h l r nl nr) ∙ e in
      let keys : inorder u ≡ inorder l ++ c ∷ inorder r = rw same at reads in
      let (rest, first) = min_node-inorder r m in
      (c, m, keys, rw keys (not-IsSorted-twice (inorder l) (inorder r) c rest first))
]
