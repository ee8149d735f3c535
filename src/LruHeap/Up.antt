-- ===== src/LruHeap/Up.antt =====
-- `heapify_up` mends a heap with one entry too low in the tree.
use native.Mathlib.Decide.{ℕ_discrete, dec_lt}
use c_programming_language.Base.{
  ℕ, zero, suc, ◌≤◌, ◌<◌, ◌≡◌, ◌≢◌, false, ltb, leb, ◌==◌, lt→ltb, arith,
}
use c_programming_language.LruHeap.{SimulationState, key, swap_heap_nodes, heapify_up}
use c_programming_language.LruHeap.Valid.{
  parent, IsLinked, IsBridged, Moved-refl, Sifted, Returns, swap-Moved, key-swap, swap-IsLinked,
}
use c_programming_language.LruHeap.Down.{Sifted-swap}

-- only the edge above `i` may be out of order
pub record UpInv (s : SimulationState) (i : ℕ) : Type 0 where
  pub edges : (c : ℕ) → 0 < c → c < s.heap_size → c ≢ i → key s (parent c) ≤ key s c
  pub bridged : IsBridged 0 s i
  pub linked : IsLinked s
  pub inside : i < s.heap_size

swap-UpInv :
    (s : SimulationState) (i : ℕ)
    → UpInv s i
    → 0 < i
    → key s i < key s (parent i)
    → UpInv (swap_heap_nodes s i (parent i)) (parent i)
swap-UpInv s i v pos below =
    let at = key-swap s i (parent i) in
    let size = (swap-Moved s i (parent i)).size in
    record {
      edges = λ c p q n.
          ground (arith, at c, at (parent c), v.edges c, v.edges (parent i), v.bridged c, size);
      bridged = λ c p q e t u.
          ground (
            arith,
            at c,
            at (parent c),
            at (parent (parent i)),
            v.edges c,
            v.edges (parent i),
            size,
          );
      linked = swap-IsLinked s i (parent i) v.linked v.inside (omega arith);
      inside = omega (arith, size);
    }

pub test_false : (a b : ℕ) → b ≤ a → ltb a b ≡ false
test_false a b h = ground arith

-- Where only the edge above `i` may be out of order, `heapify_up` at `i` ends within the fuel and in
-- bounds, in a heap whose blocks know their slots.
pub heapify_up_sifts :
    (fuel : ℕ) (s : SimulationState) (i : ℕ)
    → i < fuel
    → UpInv s i
    → Returns (Sifted 0 s) (heapify_up fuel s i)
unfolding heapify_up
heapify_up_sifts zero s i enough v = absurd (omega arith)
heapify_up_sifts (suc fuel) s zero enough v = record {
  order = λ c p q r. v.edges c p q (omega arith);
  linked = v.linked;
  moved = Moved-refl s;
}
heapify_up_sifts (suc fuel) s (suc j) enough v =
    let i = suc j in
    let room : leb s.capacity i ≡ false = ground (arith, v.linked.full, v.inside) in
    let deep : (i == 0) ≡ false = ground arith in
    elim (dec_lt (key s i) (key s (parent i))) [
      | yes below ↦
          rw (deep, room, lt→ltb _ _ below)
            (Sifted-swap 0 s (swap_heap_nodes s i (parent i)) _ (swap-Moved s i (parent i)) (
              heapify_up_sifts fuel (swap_heap_nodes s i (parent i)) (parent i) (omega arith)
                (swap-UpInv s i v (omega arith) below)))
      | no settled ↦
          rw (deep, room, test_false (key s i) (key s (parent i)) (omega arith))
            (record {
              order = λ c p q r. elim (ℕ_discrete c i) [
                | yes e ↦ rw e (omega arith)
                | no n ↦ v.edges c p q n
              ];
              linked = v.linked;
              moved = Moved-refl s;
            })
    ]
