-- ===== src/ThreadedQueue/Others.antt =====
-- What one thread of ThreadedQueue.c knows is kept by the steps of the others.
use c_programming_language.Base.{
  ℕ, ◌<◌, ◌≡◌, ◌≢◌, inl, inr, ap, true, List, [], ◌∷◌, ◌++◌, ◌==◌, arith, update, Bool-cases,
}
use c_programming_language.Base.Threads.{count}
use c_programming_language.Memory.{Ptr, null}
use c_programming_language.ThreadedQueue.{
  Shared, Pc, making, has_item, has_node, tail_held, linked, next_seen, next_held,
}
use c_programming_language.ThreadedQueue.Chain.{last, tail_of, next-last, Follows-tail}
use c_programming_language.ThreadedQueue.State.{step, Fresh, in_tail, in_head}
use c_programming_language.ThreadedQueue.Locks.{Locks}
use c_programming_language.ThreadedQueue.Shape.{Knows, Shape}
use c_programming_language.ThreadedQueue.Facts.{own_node, last_queued, fresh_node, next_queued}
use c_programming_language.ThreadedQueue.Moves.{Keeps}

module _ (producers items i : ℕ) (r : Ptr) {n : ℕ} {m : Shared} {pc : ℕ → Pc} {rest : List Ptr}
    (below : i < n) (f : Fresh m r) (l : Locks m pc) (s : Shape n m pc rest) where
  -- What another thread `j` knows at `q` survives the steps that change the chain.
  module _ (j : ℕ) (h : j < n) (d : i ≢ j) where
    abbrev pub Other : (Ptr → Ptr) → (Ptr → Ptr) → Ptr → Ptr → List Ptr → Pc → Type 0
    Other next value head tail rest' q =
        pc j ≡ q → Knows m.next m.value m.head m.tail rest q → Knows next value head tail rest' q

    Other-allocates :
        (a : Ptr)
        → r ≢ null
        → (q : Pc) → Other (update m.next r null) (update m.value r a) m.head m.tail rest q
    Other-allocates a w (has_node k p v) o c = ground (arith, own_node s j p h, fresh_node s r w f)
    Other-allocates a w (tail_held k p v) o c = ground (arith, own_node s j p h, fresh_node s r w f)
    Other-allocates a w _ o c = ground (arith, fresh_node s r w f)

    Other-links :
        (p : Ptr)
        → last m.head rest ≡ m.tail
        → in_tail (pc i) ≡ true
        → (q : Pc) → Other (update m.next m.tail p) m.value m.head m.tail (rest ++ p ∷ []) q
    Other-links p e w (has_node k p' v) o c = ground (arith, own_node s j p' h, last_queued s)
    Other-links p e w (next_seen old nx) o c = ground (arith, next-last m.next m.head rest s.chain)
    Other-links p e w (next_held old nx) o c = ground (arith, next-last m.next m.head rest s.chain)
    Other-links p e w _ o c = ground (arith, l.tail_owner i, l.tail_owner j)

    Other-sets_tail :
        (p : Ptr) → in_tail (pc i) ≡ true → (q : Pc) → Other m.next m.value m.head p rest q
    Other-sets_tail p w (making k) o c = tt
    Other-sets_tail p w _ o c = ground (arith, l.tail_owner i, l.tail_owner j)

    Other-takes :
        (nx : Ptr)
        → m.next m.head ≡ nx
        → nx ≢ null
        → in_head (pc i) ≡ true
        → (q : Pc) → Other m.next (update m.value nx null) nx m.tail (tail_of rest) q
    Other-takes nx e w b (has_node k p v) o c =
        ground (arith, own_node s j p h, ap (count p) (next_queued s nx e w).0)
    Other-takes nx e w b (tail_held k p v) o c = ground (
      arith,
      own_node s j p h,
      ap (count p) (next_queued s nx e w).0,
      Follows-tail m.next m.head nx rest e w s.chain,
    )
    Other-takes nx e w b _ o c =
        ground
          (arith, l.head_owner i, l.head_owner j, Follows-tail m.next m.head nx rest e w s.chain)

    pub step-Knows_other :
        (q : Pc)
        → pc j ≡ q
        → Knows m.next m.value m.head m.tail rest q
        → (p : Pc)
        → Keeps producers items i r below f l s
            (λ m' p' rest'. Knows m'.next m'.value m'.head m'.tail rest' q)
            p
    unfolding step
    step-Knows_other q o k (making c) e = ground (arith, k)
    step-Knows_other q o k (has_item c a) e = elim (Bool-cases (r == null)) [
      | inl failed ↦ ground arith
      | inr given ↦ ground (arith, Other-allocates a (ground arith) q o k)
    ]
    step-Knows_other q o k (tail_held c p a) e =
        ground (arith, Other-links p e.1.4 (ground arith) q o k)
    step-Knows_other q o k (linked c p) e = ground (arith, Other-sets_tail p (ground arith) q o k)
    step-Knows_other q o k (next_held old nx) e =
        ground (arith, Other-takes nx e.1.1 e.1.2 (ground arith) q o k)
    step-Knows_other q o k _ e = ground (arith, k)
