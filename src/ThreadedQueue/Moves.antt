-- ===== src/ThreadedQueue/Moves.antt =====
-- A step of one thread keeps each part of the shape of the queue.
use mathlib.Core.Path.{subst}
use mathlib.Core.List.{append_assoc}
use c_programming_language.Base.{
  All-append, ℕ, ◌+◌, ◌<◌, ◌≡◌, ◌≢◌, inl, inr, sym, ap, ◌∙◌, none, List, [], ◌∷◌, ◌++◌, map, All,
  ◌==◌, arith, update, Bool-cases,
}
use c_programming_language.Base.Threads.{count, le-total, count-append}
use c_programming_language.Memory.{Ptr, null}
use c_programming_language.ThreadedQueue.{
  Shared, Pc, making, has_item, has_node, tail_held, next_held, old_free, returned,
}
use c_programming_language.ThreadedQueue.Chain.{
  Follows, last, tail_of, last-snoc, Follows-update, Follows-snoc, map-snoc, Follows-tail,
}
use c_programming_language.ThreadedQueue.State.{step, After, Fresh}
use c_programming_language.ThreadedQueue.Locks.{Locks}
use c_programming_language.ThreadedQueue.Shape.{
  bit, held, node_of, item_of, Knows, Shape, rest_after,
}
use c_programming_language.ThreadedQueue.Facts.{
  Present, own_node, last_queued, fresh_node, next_queued, values_kept, values_taken,
}

module _ (producers items i : ℕ) (r : Ptr) {n : ℕ} {m : Shared} {pc : ℕ → Pc} {rest : List Ptr}
    (below : i < n) (f : Fresh m r) (l : Locks m pc) (s : Shape n m pc rest) where
  abbrev pub Known : Pc → Type 0
  Known p = (pc i ≡ p) × Knows m.next m.value m.head m.tail rest p

  abbrev pub Keeps : (Shared → Pc → List Ptr → Type 0) → Pc → Type 0
  Keeps P p = Known p → After (λ m' p'. P m' p' (rest_after p rest)) (step producers items i r m p)

  pub step-head_set : (p : Pc) → Keeps (λ m' p' rest'. m'.head ≢ null) p
  unfolding step
  step-head_set (making k) e = ground (arith, s.head_set)
  step-head_set _ e = ground (arith, s.head_set)

  pub step-chain : (p : Pc) → Keeps (λ m' p' rest'. Follows m'.next m'.head rest') p
  unfolding step
  step-chain (has_item k a) e = elim (Bool-cases (r == null)) [
    | inl failed ↦ ground arith
    | inr given ↦ ground (
      arith,
      s.chain,
      Follows-update m.next m.head rest r null (fresh_node s r (ground arith) f) s.chain,
    )
  ]
  step-chain (tail_held k p a) e =
      let linked : Follows (update m.next (last m.head rest) p) m.head (rest ++ p ∷ []) =
        Follows-snoc m.next m.head rest p (last_queued s).1 (own_node s i p below (ground arith)).1
          e.1.1 e.1.2 s.chain in
      let linked' : Follows (update m.next m.tail p) m.head (rest ++ p ∷ []) =
        subst (λ t. Follows (update m.next t p) m.head (rest ++ p ∷ [])) e.1.4 linked in
      ground arith
  step-chain (next_held old nx) e =
      ground (arith, Follows-tail m.next m.head nx rest e.1.1 e.1.2 s.chain)
  step-chain _ e = ground (arith, s.chain)

  pub step-tail_at :
      (p : Pc) → Keeps (λ m' p' rest'. m'.tail_lock ≡ none → last m'.head rest' ≡ m'.tail) p
  unfolding step
  step-tail_at (tail_held k p a) e = ground (arith, l.tail_owner i)
  step-tail_at (next_held old nx) e =
      ground (arith, s.tail_at, Follows-tail m.next m.head nx rest e.1.1 e.1.2 s.chain)
  step-tail_at _ e = ground (arith, s.tail_at, l.tail_owner i)

  pub step-valued : (p : Pc) → Keeps (λ m' p' rest'. All (λ v. v ≢ null) (map m'.value rest')) p
  unfolding step
  step-valued (making k) e = ground (arith, s.valued)
  step-valued (has_item k a) e = elim (Bool-cases (r == null)) [
    | inl failed ↦ ground arith
    | inr given ↦
        let kept : All Present (map (update m.value r a) rest) =
          subst (All Present) (sym (values_kept s r a (fresh_node s r (ground arith) f)))
            s.valued in
        ground arith
  ]
  step-valued (tail_held k p a) e =
      let longer : All Present (map m.value (rest ++ p ∷ [])) =
        subst (All Present) (sym (map-snoc m.value rest p))
          (All-append Present (map m.value rest) (m.value p ∷ []) s.valued (ground arith, tt)) in
      ground arith
  step-valued (next_held old nx) e =
      let shorter : All Present (m.value nx ∷ map (update m.value nx null) (tail_of rest)) =
        subst (All Present) (values_taken s nx e.1.1 e.1.2) s.valued in
      ground (arith, shorter.1)
  step-valued _ e = ground (arith, s.valued)

  pub step-ordered : (p : Pc) → Keeps (λ m' p' rest'. m'.sent ≡ m'.received ++ map m'.value rest') p
  unfolding step
  step-ordered (making k) e = ground (arith, s.ordered)
  step-ordered (has_item k a) e = elim (Bool-cases (r == null)) [
    | inl failed ↦ ground arith
    | inr given ↦ ground (arith, s.ordered, values_kept s r a (fresh_node s r (ground arith) f))
  ]
  step-ordered (tail_held k p a) e =
      let sent : m.sent ++ a ∷ [] ≡ m.received ++ map m.value (rest ++ p ∷ []) =
        ap (λ l. l ++ a ∷ []) s.ordered
        ∙ append_assoc m.received (map m.value rest) (a ∷ [])
        ∙ ap (λ l. m.received ++ l)
            (ap (λ v. map m.value rest ++ v ∷ []) (sym e.1.3) ∙ sym (map-snoc m.value rest p)) in
      ground arith
  step-ordered (next_held old nx) e =
      let taken : m.sent
          ≡ (m.received ++ m.value nx ∷ []) ++ map (update m.value nx null) (tail_of rest) =
        s.ordered
        ∙ ap (λ l. m.received ++ l) (values_taken s nx e.1.1 e.1.2)
        ∙ sym (
            append_assoc m.received (m.value nx ∷ [])
              (map (update m.value nx null) (tail_of rest))) in
      ground arith
  step-ordered _ e = ground (arith, s.ordered)

  pub step-nodes :
      (a : Ptr) (p : Pc)
      → Keeps
          (λ m' p' rest'.
            node_of a p' + count a (m'.head ∷ rest') + bit (m.live a)
            ≡ node_of a p + count a (m.head ∷ rest) + bit (m'.live a))
          p
  unfolding step
  step-nodes a (making k) e = ground arith
  step-nodes a (has_item k v) e = ground (arith, s.nodes a)
  step-nodes a (tail_held k p v) e = ground (arith, count-append a rest (p ∷ []))
  step-nodes a (next_held old nx) e = ground (arith, ap (count a) (next_queued s nx e.1.1 e.1.2).0)
  step-nodes a (old_free old v) e = ground (arith, own_node s i old below (ground arith))
  step-nodes a _ e = ground arith

  pub step-items :
      (a : Ptr) (p : Pc)
      → a ≢ null
      → Keeps
          (λ m' p' rest'.
            item_of a p' + count a (map m'.value rest') + held (m.cells a)
            ≡ item_of a p + count a (map m.value rest) + held (m'.cells a))
          p
  unfolding step
  step-items a (making k) h e = ground (arith, s.items a h)
  step-items a (has_item k v) h e = elim (Bool-cases (r == null)) [
    | inl failed ↦ ground arith
    | inr given ↦ ground (arith, ap (count a) (values_kept s r v (fresh_node s r (ground arith) f)))
  ]
  step-items a (tail_held k p v) h e = ground (
    arith,
    ap (count a) (map-snoc m.value rest p),
    count-append a (map m.value rest) (m.value p ∷ []),
  )
  step-items a (next_held old nx) h e = ground (arith, ap (count a) (values_taken s nx e.1.1 e.1.2))
  step-items a (returned v) h e = ground (arith, s.items a h, le-total (item_of a) n pc i below)
  step-items a _ h e = ground arith

  pub step-Knows_self :
      (p : Pc) → Keeps (λ m' p' rest'. Knows m'.next m'.value m'.head m'.tail rest' p') p
  unfolding step
  step-Knows_self (making k) e = ground arith
  step-Knows_self (has_node k p a) e = ground (arith, s.tail_at, l.tail_owner i)
  step-Knows_self (tail_held k p a) e = ground (arith, last-snoc m.head rest p)
  step-Knows_self (next_held old nx) e =
      let shorter : All Present (m.value nx ∷ map (update m.value nx null) (tail_of rest)) =
        subst (All Present) (values_taken s nx e.1.1 e.1.2) s.valued in
      ground (arith, s.head_set, shorter.0)
  step-Knows_self _ e = ground (arith, s.head_set)
