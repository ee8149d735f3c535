-- ===== src/Avl/Balance.antt =====
-- AVL_tree.c: stored heights and the balance of the nodes, kept by an insertion.
use c_programming_language.Base.{
  ℕ, suc, ◌+◌, ◌≤◌, ◌<◌, ◌≡◌, refl, ◌∙◌, ◌⊎◌, inl, inr, true, false, lt→ltb, Option, none, some,
  ◌>>=◌, arith,
}
use c_programming_language.Base.Int.{ℤ, pos, negsuc, ◌<ℤ◌, ltb_ℤ, sub_ℕ, ge→ltb, dec_lt_ℤ}
use Prim.Native.Nat
use native.Mathlib.Decide.{dec_lt}
use c_programming_language.Avl.{
  Tree, leaf, node, max, height, create_node, right_rotate, left_rotate, insert_left_heavy,
  insert_right_heavy, insert_rebalance, insert,
}

-- Every stored height is one more than the greater of the children's, which differ by one at most.
abbrev pub IsAvl : Tree → Type 0
IsAvl leaf = Unit
IsAvl (node d h l r) =
    (h ≡ max (height l) (height r) + 1)
    × (height l ≤ height r + 1)
    × (height r ≤ height l + 1)
    × IsAvl l
    × IsAvl r

-- A tree that has grown by the insertion of `d`: the side that `d` went to is the taller one.
abbrev pub Leans : ℤ → Tree → Type 0
Leans d leaf = ⊥
Leans d (node x h l r) =
    (h ≡ 1) ⊎ ((d <ℤ x) × (height l ≡ height r + 1)) ⊎ ((x <ℤ d) × (height r ≡ height l + 1))

-- What an insertion of `d` makes of a tree of height `n`.
abbrev pub Grown : ℤ → ℕ → Tree → Type 0
Grown d n t = IsAvl t × ((height t ≡ n) ⊎ ((height t ≡ suc n) × Leans d t))

abbrev pub GrownTo : ℤ → ℕ → Option Tree → Type 0
GrownTo d n none = ⊥
GrownTo d n (some t) = Grown d n t

pub max_lem : (a b : ℕ) → max a b ≡ Nat.max a b
unfolding max
max_lem a b = ground arith

ruleset heights = (arith, max_lem)

-- There is a balanced tree of height `n`.
abbrev pub IsAvlOf : ℕ → Option Tree → Type 0
IsAvlOf n none = ⊥
IsAvlOf n (some t) = IsAvl t × (height t ≡ n)

height-zero : (t : Tree) → IsAvl t → height t ≡ 0 → t ≡ leaf
height-zero leaf a e = refl
height-zero (node d h l r) a e = absurd (omega arith)

module _ (x lx : ℤ) (h lh m : ℕ) (ll r : Tree) (al : IsAvl ll) (ar : IsAvl r)
    (er : height r ≡ m) where
  right_rotate-IsAvl :
      (lr : Tree)
      → IsAvl lr
      → height ll ≡ suc m
      → height lr ≡ m
      → IsAvlOf (m + 2) (right_rotate (node x h (node lx lh ll lr) r))
  unfolding right_rotate
  right_rotate-IsAvl lr a el e = (
    (omega heights, omega heights, omega heights, al, (refl, omega heights, omega heights, a, ar)),
    omega heights,
  )

  left_right-IsAvl :
      (lr : Tree)
      → IsAvl lr
      → height ll ≡ m
      → height lr ≡ suc m
      → IsAvlOf (m + 2) (left_rotate (node lx lh ll lr) >>= λ l. right_rotate (node x h l r))
  unfolding right_rotate left_rotate
  left_right-IsAvl leaf a el e = absurd (omega arith)
  left_right-IsAvl (node y yh yl yr) a el e = (
    (
      omega heights,
      omega heights,
      omega heights,
      (refl, omega heights, omega heights, al, a.3),
      (refl, omega heights, omega heights, a.4, ar),
    ),
    omega heights,
  )

module _ (x rx : ℤ) (h rh m : ℕ) (l rr : Tree) (al : IsAvl l) (ar : IsAvl rr)
    (el : height l ≡ m) where
  left_rotate-IsAvl :
      (rl : Tree)
      → IsAvl rl
      → height rr ≡ suc m
      → height rl ≡ m
      → IsAvlOf (m + 2) (left_rotate (node x h l (node rx rh rl rr)))
  unfolding left_rotate
  left_rotate-IsAvl rl a er e = (
    (omega heights, omega heights, omega heights, (refl, omega heights, omega heights, al, a), ar),
    omega heights,
  )

  right_left-IsAvl :
      (rl : Tree)
      → IsAvl rl
      → height rr ≡ m
      → height rl ≡ suc m
      → IsAvlOf (m + 2) (right_rotate (node rx rh rl rr) >>= λ r. left_rotate (node x h l r))
  unfolding right_rotate left_rotate
  right_left-IsAvl leaf a er e = absurd (omega arith)
  right_left-IsAvl (node y yh yl yr) a er e = (
    (
      omega heights,
      omega heights,
      omega heights,
      (refl, omega heights, omega heights, al, a.3),
      (refl, omega heights, omega heights, a.4, ar),
    ),
    omega heights,
  )

insert_left_heavy-IsAvl :
    (d x : ℤ) (h m : ℕ) (l r : Tree)
    → IsAvl l
    → IsAvl r
    → Leans d l
    → height l ≡ m + 2
    → height r ≡ m
    → IsAvlOf (m + 2) (insert_left_heavy d x h l r)
unfolding insert_left_heavy
insert_left_heavy-IsAvl d x h m leaf r al ar g el er = absurd (omega arith)
insert_left_heavy-IsAvl d x h m (node lx lh ll lr) r al ar (inl low) el er = absurd (omega arith)
insert_left_heavy-IsAvl d x h m (node lx lh ll lr) r al ar (inr (inl (less, e))) el er =
    rw (lt→ltb _ _ less)
      (right_rotate-IsAvl x lx h lh m ll r al.3 ar er lr al.4 (omega heights) (omega heights))
insert_left_heavy-IsAvl d x h m (node lx lh ll lr) r al ar (inr (inr (more, e))) el er =
    rw (ge→ltb d lx (omega arith), lt→ltb _ _ more)
      (left_right-IsAvl x lx h lh m ll r al.3 ar er lr al.4 (omega heights) (omega heights))

insert_right_heavy-IsAvl :
    (d x : ℤ) (h m : ℕ) (l r : Tree)
    → IsAvl l
    → IsAvl r
    → Leans d r
    → height r ≡ m + 2
    → height l ≡ m
    → IsAvlOf (m + 2) (insert_right_heavy d x h l r)
unfolding insert_right_heavy
insert_right_heavy-IsAvl d x h m l leaf al ar g er el = absurd (omega arith)
insert_right_heavy-IsAvl d x h m l (node rx rh rl rr) al ar (inl low) er el = absurd (omega arith)
insert_right_heavy-IsAvl d x h m l (node rx rh rl rr) al ar (inr (inl (less, e))) er el =
    rw (ge→ltb rx d (omega arith), lt→ltb _ _ less)
      (right_left-IsAvl x rx h rh m l rr al ar.4 el rl ar.3 (omega heights) (omega heights))
insert_right_heavy-IsAvl d x h m l (node rx rh rl rr) al ar (inr (inr (more, e))) er el =
    rw (lt→ltb _ _ more)
      (left_rotate-IsAvl x rx h rh m l rr al ar.4 el rl ar.3 (omega heights) (omega heights))

-- the four outcomes of the tests on the balance
left_deep : (a b : ℕ) → b + 1 < a → ltb_ℤ (pos 1) (sub_ℕ a b) ≡ true
left_deep a b h = ground arith

left_flat : (a b : ℕ) → a ≤ b + 1 → ltb_ℤ (pos 1) (sub_ℕ a b) ≡ false
left_flat a b h = ground arith

right_deep : (a b : ℕ) → a + 1 < b → ltb_ℤ (sub_ℕ a b) (negsuc 0) ≡ true
right_deep a b h = ground arith

right_flat : (a b : ℕ) → b ≤ a + 1 → ltb_ℤ (sub_ℕ a b) (negsuc 0) ≡ false
right_flat a b h = ground arith

GrownTo-of_IsAvlOf : (d : ℤ) {m n : ℕ} (o : Option Tree) → m ≡ n → IsAvlOf m o → GrownTo d n o
GrownTo-of_IsAvlOf d none e p = p
GrownTo-of_IsAvlOf d (some t) e p = (p.0, inl (p.1 ∙ e))

-- a node whose children are level enough is left as it is
pub insert_rebalance-flat :
    (d x : ℤ) (l r : Tree)
    → height l ≤ height r + 1
    → height r ≤ height l + 1
    → insert_rebalance d x l r ≡ some (node x (max (height l) (height r) + 1) l r)
unfolding insert_rebalance
insert_rebalance-flat d x l r p q =
    rw (left_flat (height l) (height r) p, right_flat (height l) (height r) q)

-- `insert_rebalance` where one child is too deep
insert_rebalance-deep :
    (d x : ℤ) (l r : Tree)
    → (height r + 1 < height l
        → insert_rebalance d x l r ≡ insert_left_heavy d x (max (height l) (height r) + 1) l r)
      × (height l + 1 < height r
          → insert_rebalance d x l r ≡ insert_right_heavy d x (max (height l) (height r) + 1) l r)
unfolding insert_rebalance
insert_rebalance-deep d x l r = (
  λ p. rw (left_deep (height l) (height r) p),
  λ q. rw (left_flat (height l) (height r) (omega arith), right_deep (height l) (height r) q),
)

-- `n` is the height of the side that `d` went to before the insertion.
module _ (d x : ℤ) (h n : ℕ) where
  insert_rebalance-left :
      (l r : Tree)
      → d <ℤ x
      → IsAvl r
      → Grown d n l
      → h ≡ max n (height r) + 1
      → n ≤ height r + 1
      → height r ≤ n + 1
      → GrownTo d h (insert_rebalance d x l r)
  insert_rebalance-left l r less ar (al, inl same) eh p q =
      rw (insert_rebalance-flat d x l r (omega arith) (omega arith))
        ((refl, omega arith, omega arith, al, ar), inl (omega heights))
  insert_rebalance-left l r less ar (al, inr (grew, lean)) eh p q =
      elim (dec_lt (height r + 1) (height l)) [
        | yes deep ↦ rw ((insert_rebalance-deep d x l r).0 deep) (
            GrownTo-of_IsAvlOf d {m = height r + 2} _ (omega heights)
              (insert_left_heavy-IsAvl d x _ (height r) l r al ar lean (omega arith) refl))
        | no flat ↦ rw (insert_rebalance-flat d x l r (omega arith) (omega arith)) (
          (refl, omega arith, omega arith, al, ar),
          elim (dec_lt n (height r)) [
            | yes low ↦ inl (omega heights)
            | no level ↦ inr (omega heights, inr (inl (less, omega heights)))
          ],
        )
      ]

  insert_rebalance-right :
      (l r : Tree)
      → x <ℤ d
      → IsAvl l
      → Grown d n r
      → h ≡ max (height l) n + 1
      → n ≤ height l + 1
      → height l ≤ n + 1
      → GrownTo d h (insert_rebalance d x l r)
  insert_rebalance-right l r more al (ar, inl same) eh p q =
      rw (insert_rebalance-flat d x l r (omega arith) (omega arith))
        ((refl, omega arith, omega arith, al, ar), inl (omega heights))
  insert_rebalance-right l r more al (ar, inr (grew, lean)) eh p q =
      elim (dec_lt (height l + 1) (height r)) [
        | yes deep ↦ rw ((insert_rebalance-deep d x l r).1 deep) (
            GrownTo-of_IsAvlOf d {m = height l + 2} _ (omega heights)
              (insert_right_heavy-IsAvl d x _ (height l) l r al ar lean (omega arith) refl))
        | no flat ↦ rw (insert_rebalance-flat d x l r (omega arith) (omega arith)) (
          (refl, omega arith, omega arith, al, ar),
          elim (dec_lt n (height l)) [
            | yes low ↦ inl (omega heights)
            | no level ↦ inr (omega heights, inr (inr (more, omega heights)))
          ],
        )
      ]

GrownTo-bind :
    (d : ℤ) (n k : ℕ) (m : Option Tree) (f : Tree → Option Tree)
    → GrownTo d n m
    → ((t : Tree) → Grown d n t → GrownTo d k (f t))
    → GrownTo d k (m >>= f)
GrownTo-bind d n k none f p next = absurd p
GrownTo-bind d n k (some t) f p next = next t p

-- An insertion into a balanced tree meets no NULL, and its height grows by one at most.
pub insert-GrownTo : (t : Tree) (d : ℤ) → IsAvl t → GrownTo d (height t) (insert true t d)
unfolding insert create_node
insert-GrownTo leaf d a = ((omega heights, omega arith, omega arith, tt, tt), inr (refl, inl refl))
insert-GrownTo (node x h l r) d a = elim (dec_lt_ℤ d x) [
  | yes less ↦ rw (lt→ltb _ _ less) (
      GrownTo-bind d (height l) h (insert true l d) _ (insert-GrownTo l d a.3)
        λ l' g. insert_rebalance-left d x h (height l) l' r less a.4 g a.0 a.1 a.2)
  | no not_less ↦ elim (dec_lt_ℤ x d) [
    | yes more ↦
        rw (ge→ltb d x (omega arith), lt→ltb _ _ more)
          (GrownTo-bind d (height r) h (insert true r d) _ (insert-GrownTo r d a.4)
            λ r' g. insert_rebalance-right d x h (height r) l r' more a.3 g a.0 a.2 a.1)
    | no same ↦ rw (ge→ltb d x (omega arith), ge→ltb x d (omega arith)) (a, inl refl)
  ]
]
