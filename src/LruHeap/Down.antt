-- ===== src/LruHeap/Down.antt =====
-- `heapify_down` mends a heap with one entry too high in the tree, and builds the initial heap.
use native.Mathlib.Decide.{ℕ_discrete}
use c_programming_language.Base.{
  ℕ, zero, suc, ◌+◌, ◌*◌, ◌≤◌, ◌<◌, ◌≡◌, ◌≢◌, ◌⊎◌, inl, true, false, Option, none, some, ◌>>=◌,
  ◌==◌, arith,
}
use c_programming_language.LruHeap.{
  SimulationState, key, swap_heap_nodes, smallest, heapify_down, build_heap,
}
use c_programming_language.LruHeap.Valid.{
  parent, IsLinked, IsHeapFrom, IsBridged, Moved, Moved-refl, Moved-trans, Sifted, Returns,
  swap-Moved, key-swap, swap-IsLinked,
}

-- only the edges below `i` may be out of order
pub record DownInv (lo : ℕ) (s : SimulationState) (i : ℕ) : Type 0 where
  pub edges :
      (c : ℕ) → 0 < c → c < s.heap_size → lo ≤ parent c → parent c ≢ i → key s (parent c) ≤ key s c
  pub bridged : IsBridged lo s i
  pub linked : IsLinked s
  pub inside : (i < s.heap_size) ⊎ (s.heap_size ≡ 0)

-- `smallest` is `i` where no child has a lesser key, and else the child with the least.
record IsSmallest (s : SimulationState) (i m : ℕ) : Type 0 where
  least : (c : ℕ) → 0 < c → c < s.heap_size → parent c ≡ i → key s m ≤ key s c
  child : m ≢ i → (0 < m) × (m < s.heap_size) × (parent m ≡ i) × (i < m) × (key s m < key s i)

smallest-IsSmallest : (s : SimulationState) (i : ℕ) → IsSmallest s i (smallest s i)
unfolding smallest
smallest-IsSmallest s i = record {
  least = λ c p q e. elim (ℕ_discrete c (i * 2 + 1)) [
    | yes left ↦ rw left (ground arith)
    | no right ↦ rw (let f : c ≡ i * 2 + 2 = omega arith in f) (ground arith)
  ];
  child = ground arith;
}

-- a swap with the least child moves the entry down
swap-DownInv :
    (lo : ℕ) (s : SimulationState) (i m : ℕ)
    → DownInv lo s i
    → IsSmallest s i m
    → m ≢ i
    → DownInv lo (swap_heap_nodes s i m) m
swap-DownInv lo s i m v w n =
    let (pos, inside, up, below, less) = w.child n in
    let at = key-swap s i m in
    let size = (swap-Moved s i m).size in
    record {
      edges =
          λ c p q r t. ground (arith, at c, at (parent c), v.edges c, v.bridged m, w.least c, size);
      bridged = λ c p q r t u. ground (arith, at c, at (parent m), v.edges c, size);
      linked = swap-IsLinked s i m v.linked (omega arith) inside;
      inside = inl (omega (arith, size));
    }

pub Sifted-swap :
    (lo : ℕ) (s t : SimulationState) (o : Option SimulationState)
    → Moved s t
    → Returns (Sifted lo t) o
    → Returns (Sifted lo s) o
Sifted-swap lo s t none m p = absurd p
Sifted-swap lo s t (some u) m p = record {
  order = p.order;
  linked = p.linked;
  moved = Moved-trans m p.moved;
}

-- Where only the edges below `i` may be out of order, `heapify_down` at `i` ends within the fuel, in
-- a state whose edges from `lo` on are in order and whose blocks know their slots.
pub heapify_down_sifts :
    (fuel lo : ℕ) (s : SimulationState) (i : ℕ)
    → s.heap_size < fuel + i
    → 0 < fuel
    → DownInv lo s i
    → Returns (Sifted lo s) (heapify_down fuel s i)
unfolding heapify_down
heapify_down_sifts zero lo s i enough some_fuel v = absurd (omega arith)
heapify_down_sifts (suc fuel) lo s i enough some_fuel v =
    let w = smallest-IsSmallest s i in
    elim (ℕ_discrete (smallest s i) i) [
      | yes same ↦ rw (let f : (smallest s i == i) ≡ true = ground arith in f) (record {
        order = λ c p q r. ground (arith, v.edges c, w.least c);
        linked = v.linked;
        moved = Moved-refl s;
      })
      | no other ↦
          let m = smallest s i in
          let t = swap_heap_nodes s i m in
          let moved = swap-Moved s i m in
          let (pos, inside, up, below, less) = w.child other in
          rw (let f : (smallest s i == i) ≡ false = ground arith in f) (
            Sifted-swap lo s t (heapify_down fuel t m) moved (
              heapify_down_sifts fuel lo t m (omega (arith, moved.size)) (omega arith)
                (swap-DownInv lo s i m v w other)))
    ]

pub Returns-bind :
    (P Q : SimulationState → Type 0) (o : Option SimulationState)
    (f : SimulationState → Option SimulationState)
    → Returns P o
    → ((s : SimulationState) → P s → Returns Q (f s))
    → Returns Q (o >>= f)
Returns-bind P Q none f p next = absurd p
Returns-bind P Q (some s) f p next = next s p

-- each round of the loop in `init_simulation` orders one more parent
pub build_heap_sifts :
    (k : ℕ) (s : SimulationState)
    → IsHeapFrom k s
    → IsLinked s
    → k ≤ s.heap_size
    → Returns (Sifted 0 s) (build_heap k s)
unfolding build_heap
build_heap_sifts zero s h v b = record { order = h; linked = v; moved = Moved-refl s }
build_heap_sifts (suc k) s h v b =
    Returns-bind (Sifted k s) (Sifted 0 s) (heapify_down (s.heap_size + 1) s k) (build_heap k)
      (heapify_down_sifts (s.heap_size + 1) k s k (omega arith) (omega arith) (record {
        edges = λ c p q r t. h c p q (omega arith);
        bridged = λ c p q r t u. absurd (omega arith);
        linked = v;
        inside = inl (omega arith);
      }))
      λ t p.
        Sifted-swap 0 s t (build_heap k t) p.moved
          (build_heap_sifts k t p.order p.linked (omega (arith, p.moved.size)))
