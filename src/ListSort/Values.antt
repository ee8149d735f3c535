-- ===== src/ListSort/Values.antt =====
-- BubbleSort.c: what the inner loop does to the values of a list.
use mathlib.Core.List.{Perm}
use mathlib.Core.List.Perm
use c_programming_language.Base.{
  ℕ, zero, suc, ◌<◌, ◌≡◌, refl, ap, ◌∙◌, ◌≢◌, inl, inr, false, ◌||◌, some, [], ◌∷◌, arith, ◌==◌,
  if◌then◌else◌, Bool-cases, length, All,
}
use c_programming_language.Base.Int.{ℤ, ltb_ℤ, ◌≤ℤ◌}
use c_programming_language.Memory.{Ptr, null, Store, Ends, Ends-mono, set_cell}
use c_programming_language.Memory.Chain.{
  Node, node, Cells, has, first, values, Chain, SameOutside, load-done, store-done, Chain-set_cell,
}
use c_programming_language.ListSort.{inner_loop}

-- the value that the inner loop leaves at `i`
abbrev pub least : ℤ → Cells → ℤ
least v [] = v
least v ((q, w) ∷ xs) = least (if ltb_ℤ w v then w else v) xs

-- the nodes behind `i` after the inner loop
abbrev pub rest_of : ℤ → Cells → Cells
rest_of v [] = []
rest_of v ((q, w) ∷ xs) = (q, if ltb_ℤ w v then v else w) ∷ rest_of (if ltb_ℤ w v then w else v) xs

pub has-rest_of : (a : Ptr) (v : ℤ) (xs : Cells) → has a (rest_of v xs) ≡ has a xs
has-rest_of a v [] = refl
has-rest_of a v ((q, w) ∷ xs) =
    ap (λ z. (a == q) || z) (has-rest_of a (if ltb_ℤ w v then w else v) xs)

pub first-rest_of : (v : ℤ) (xs : Cells) (stop : Ptr) → first (rest_of v xs) stop ≡ first xs stop
first-rest_of v [] stop = refl
first-rest_of v ((q, w) ∷ xs) stop = refl

pub length-rest_of : (v : ℤ) (xs : Cells) → length (rest_of v xs) ≡ length xs
length-rest_of v [] = refl
length-rest_of v ((q, w) ∷ xs) = ap suc (length-rest_of (if ltb_ℤ w v then w else v) xs)

pub least-le : (v : ℤ) (xs : Cells) → least v xs ≤ℤ v
least-le v [] = omega arith
least-le v ((q, w) ∷ xs) = ground (arith, least-le (if ltb_ℤ w v then w else v) xs)

-- The values behind `i` are not below the one that is left at `i`.
pub least-below_rest_of : (v : ℤ) (xs : Cells) → All (λ w. least v xs ≤ℤ w) (values (rest_of v xs))
least-below_rest_of v [] = tt
least-below_rest_of v ((q, w) ∷ xs) = (
  ground (arith, least-le (if ltb_ℤ w v then w else v) xs),
  least-below_rest_of (if ltb_ℤ w v then w else v) xs,
)

-- The values are exchanged, and none is lost.
pub rest_of-Perm : (v : ℤ) (xs : Cells) → Perm (v ∷ values xs) (least v xs ∷ values (rest_of v xs))
rest_of-Perm v [] = Perm.refl (v ∷ [])
rest_of-Perm v ((q, w) ∷ xs) = elim (Bool-cases (ltb_ℤ w v)) [
  | inl t ↦ rw t (Perm.trans (Perm.cons v (rest_of-Perm w xs)) (Perm.swap (least w xs) v _))
  | inr t ↦ rw t (
      Perm.trans (Perm.swap w v _)
        (Perm.trans (Perm.cons w (rest_of-Perm v xs)) (Perm.swap (least v xs) w _)))
]

module _ (i : Ptr) (r : Ptr) (in_use : i ≢ null) where
  -- The inner loop ends, with the least value at `i` and the others in the nodes behind it.
  pub inner_loop_lem :
      (fuel : ℕ) (s : Store Node) (v : ℤ) (xs : Cells)
      → has i xs ≡ false
      → s i ≡ some (node v r)
      → Chain s null xs
      → length xs < fuel
      → Ends
          (λ u t.
            (t i ≡ some (node (least v xs) r))
            × Chain t null (rest_of v xs)
            × SameOutside ((i, v) ∷ xs) s t)
          (inner_loop fuel i (first xs null) s)
  unfolding inner_loop
  inner_loop_lem zero s v xs out e c enough = absurd (omega arith)
  inner_loop_lem (suc fuel) s v [] out e c enough = (e, tt, λ a h. refl)
  inner_loop_lem (suc fuel) s v ((q, w) ∷ xs) out e (n, qout, at_q, c) enough =
      let full : (q == null) ≡ false = ground arith in
      let apart : (q == i) ≡ false = ground arith in
      elim (Bool-cases (ltb_ℤ w v)) [
        | inl t ↦
            let s1 = set_cell s i (some (node w r)) in
            let s2 = set_cell s1 q (some (node v (first xs null))) in
            rw
              (
                full,
                load-done i (node v r) s in_use e,
                load-done q (node w (first xs null)) s n at_q,
                t,
                store-done i (node v r) (node w r) s in_use e,
                store-done q (node w (first xs null)) (node v (first xs null)) s1 n (ground arith),
              )
              (Ends-mono _ _ (inner_loop fuel i (first xs null) s2)
                (inner_loop_lem fuel s2 w xs (ground arith) (ground arith)
                  (Chain-set_cell s1 null q _ xs qout
                    (Chain-set_cell s null i _ xs (ground arith) c))
                  (omega arith))
                λ u t' (at_i, chain, same). (
                  at_i,
                  (
                    n,
                    rw (has-rest_of q w xs) qout,
                    rw (first-rest_of w xs null) (same q (ground arith) ∙ ground arith),
                    chain,
                  ),
                  λ a o. ground (arith, same a),
                ))
        | inr t ↦
            rw
              (
                full,
                load-done i (node v r) s in_use e,
                load-done q (node w (first xs null)) s n at_q,
                t,
              )
              (Ends-mono _ _ (inner_loop fuel i (first xs null) s)
                (inner_loop_lem fuel s v xs (ground arith) e c (omega arith))
                λ u t' (at_i, chain, same). (
                  at_i,
                  (
                    n,
                    rw (has-rest_of q v xs) qout,
                    rw (first-rest_of v xs null) (same q (ground arith) ∙ at_q),
                    chain,
                  ),
                  λ a o. ground (arith, same a),
                ))
      ]
