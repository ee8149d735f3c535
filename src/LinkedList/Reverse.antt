-- ===== src/LinkedList/Reverse.antt =====
-- DQ.c: the reversal of a list.
use mathlib.Core.List.{reverse, reverse_aux}
use c_programming_language.Base.{
  ℕ, zero, suc, ◌<◌, ◌≡◌, refl, true, false, some, [], ◌∷◌, ◌==◌, arith, length,
}
use c_programming_language.Memory.{Ptr, null, Store, Ends, Ends-mono, set_cell}
use c_programming_language.Memory.Chain.{
  Node, node, Cells, has, first, IsList, SameOutside, load-done, Chain-set_cell,
}
use c_programming_language.LinkedList.{reverse_loop, reverse_list}
use c_programming_language.LinkedList.Walk.{set_next-done}

abbrev Disjoint : Cells → Cells → Type 0
Disjoint xs ys = (a : Ptr) → has a xs ≡ true → has a ys ≡ false

-- The loop moves the nodes that are left, one by one, in front of those behind it.
reverse_loop_lem :
    (fuel : ℕ) (s : Store Node) (prev cur : Ptr) (ys xs : Cells)
    → IsList s prev ys
    → IsList s cur xs
    → Disjoint xs ys
    → length xs < fuel
    → Ends
        (λ l t. IsList t l (reverse_aux xs ys) × ((a : Ptr) → has a xs ≡ false → t a ≡ s a))
        (reverse_loop fuel prev cur s)
unfolding reverse_loop
reverse_loop_lem zero s prev cur ys xs iy ix apart enough = absurd (omega arith)
reverse_loop_lem (suc fuel) s prev cur ys [] iy ix apart enough = rw (ix.head) (iy, λ a o. refl)
reverse_loop_lem (suc fuel) s prev cur ys ((p, v) ∷ xs) iy ix apart enough =
    let (n, out, e, c) = ix.chain in
    let full : (p == null) ≡ false = ground arith in
    let q = first xs null in
    let t = set_cell s p (some (node v prev)) in
    let off : has p ys ≡ false = ground (arith, apart p) in
    rw (ix.head, full, load-done p (node v q) s n e, set_next-done p q prev v s n e)
      (Ends-mono _ _ (reverse_loop fuel p q t)
        (reverse_loop_lem fuel t p q ((p, v) ∷ ys) xs
          (record {
            head = refl;
            chain = (n, off, ground (arith, iy.head), Chain-set_cell s null p _ ys off iy.chain);
          })
          (record { head = refl; chain = Chain-set_cell s null p _ xs out c })
          (λ a i. ground (arith, apart a)) (omega arith))
        λ l u (is, same). (is, λ a o. ground (arith, same a)))

-- `reverse_list` ends in the list of the same nodes, in the opposite order, and writes nowhere else.
pub reverse_list_lem :
    (fuel : ℕ) (s : Store Node) (head : Ptr) (xs : Cells)
    → IsList s head xs
    → length xs < fuel
    → Ends (λ l t. IsList t l (reverse xs) × SameOutside xs s t) (reverse_list fuel head s)
unfolding reverse_list
reverse_list_lem fuel s head xs is enough =
    reverse_loop_lem fuel s null head [] xs (record { head = refl; chain = tt }) is (λ a i. refl)
      enough
