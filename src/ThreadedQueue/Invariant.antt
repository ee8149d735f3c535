-- ===== src/ThreadedQueue/Invariant.antt =====
-- The invariant of ThreadedQueue.c, and that a step of one thread keeps it.
use native.Mathlib.Decide.{ℕ_discrete}
use c_programming_language.Base.{
  ℕ, ◌+◌, ◌*◌, ◌%◌, ◌<◌, ◌≡◌, ◌≢◌, refl, ap, ◌∙◌, List, ◌∷◌, map, arith, update, ltb, length,
}
use c_programming_language.Base.Threads.{count, total, total-update}
use c_programming_language.Memory.{Ptr, null}
use c_programming_language.ThreadedQueue.{Shared, Pc, moves, size_mod}
use c_programming_language.ThreadedQueue.State.{step, After, After-moves, Fresh}
use c_programming_language.ThreadedQueue.Locks.{
  Locks, step-tail_owner, step-head_owner, step-node_owner,
}
use c_programming_language.ThreadedQueue.Shape.{
  Shape, Knows, rest_after, node_of, item_of, bit, held,
}
use c_programming_language.ThreadedQueue.Others.{step-Knows_other}
use c_programming_language.ThreadedQueue.Moves.{
  step-head_set, step-chain, step-tail_at, step-valued, step-ordered, step-nodes, step-items,
  step-Knows_self,
}
use c_programming_language.ThreadedQueue.Counts.{
  Counts, adds, removes, enters, leaves, made, Within, Stopped, produces, step-roles, Stopped-mono,
  step-size_range, step-size, step-produced, step-consumed, step-made, step-Within, step-Stopped,
  step-consumed_mono,
}

pub record Inv (producers items n : ℕ) (m : Shared) (pc : ℕ → Pc) : Type 0 where
  pub rest : List Ptr
  pub locks : Locks m pc
  pub shape : Shape n m pc rest
  pub counts : Counts producers items n m pc rest

module _ (producers items n i : ℕ) (r : Ptr) {m m' : Shared} {pc : ℕ → Pc} {p' : Pc} (below : i < n)
    (f : Fresh m r) (v : Inv producers items n m pc)
    (e : step producers items i r m (pc i) ≡ moves m' p') where
  open v use {rest, locks, shape, counts}

  abbrev rest' : List Ptr
  rest' = rest_after (pc i) rest

  abbrev pc' : ℕ → Pc
  pc' = update pc i p'

  made_step : (P : Shared → Pc → Type 0) → After P (step producers items i r m (pc i)) → P m' p'
  made_step P a = After-moves P (step producers items i r m (pc i)) e a

  known : (pc i ≡ pc i) × Knows m.next m.value m.head m.tail rest (pc i)
  known = (refl, shape.knows i below)

  Inv-Locks : Locks m' pc'
  Inv-Locks = record {
    tail_owner = λ j. made_step _ (step-tail_owner producers items i r locks (pc i) refl j);
    head_owner = λ j. made_step _ (step-head_owner producers items i r locks (pc i) refl j);
    node_owner = λ q j. made_step _ (step-node_owner producers items i r locks (pc i) refl q j);
  }

  Inv-nodes : (a : Ptr) → total (node_of a) n pc' + count a (m'.head ∷ rest') ≡ bit (m'.live a)
  Inv-nodes a = omega (
    arith,
    shape.nodes a,
    total-update (node_of a) pc i p' n below,
    made_step _ (step-nodes producers items i r below f locks shape a (pc i) known),
  )

  Inv-items :
      (a : Ptr)
      → a ≢ null
      → total (item_of a) n pc' + count a (map m'.value rest') ≡ held (m'.cells a)
  Inv-items a h = omega (
    arith,
    shape.items a h,
    total-update (item_of a) pc i p' n below,
    made_step _ (step-items producers items i r below f locks shape a (pc i) h known),
  )

  Inv-Knows : (j : ℕ) → j < n → Knows m'.next m'.value m'.head m'.tail rest' (pc' j)
  Inv-Knows j h = elim (ℕ_discrete i j) [
    | yes same ↦
        let at : pc' j ≡ p' = ground arith in
        rw at (made_step _ (step-Knows_self producers items i r below f locks shape (pc i) known))
    | no other ↦
        let at : pc' j ≡ pc j = ground arith in
        rw at (
          made_step _ (
            step-Knows_other producers items i r below f locks shape j h other (pc j) refl
              (shape.knows j h) (pc i) known))
  ]

  Inv-Shape : Shape n m' pc' rest'
  Inv-Shape = record {
    head_set = made_step _ (step-head_set producers items i r below f locks shape (pc i) known);
    chain = made_step _ (step-chain producers items i r below f locks shape (pc i) known);
    tail_at = made_step _ (step-tail_at producers items i r below f locks shape (pc i) known);
    knows = Inv-Knows;
    nodes = Inv-nodes;
    items = Inv-items;
    valued = made_step _ (step-valued producers items i r below f locks shape (pc i) known);
    ordered = made_step _ (step-ordered producers items i r below f locks shape (pc i) known);
  }

  Inv-size :
      (m'.size + total adds n pc') % size_mod ≡ (length rest' + total removes n pc') % size_mod
  Inv-size = omega (
    arith,
    counts.size_counted,
    total-update adds pc i p' n below,
    total-update removes pc i p' n below,
    made_step _ (step-size producers items i r below shape counts (pc i) known),
  )

  Inv-Within : (j : ℕ) → Within items (pc' j)
  Inv-Within j = elim (ℕ_discrete i j) [
    | yes same ↦
        let at : pc' j ≡ p' = ground arith in
        rw at (made_step _ (step-Within producers items i r below shape counts (pc i) known))
    | no other ↦ let at : pc' j ≡ pc j = ground arith in rw at (counts.within j)
  ]

  Inv-roles : (j : ℕ) → produces (pc' j) ≡ ltb j producers
  Inv-roles j = elim (ℕ_discrete i j) [
    | yes same ↦
        let at : pc' j ≡ p' = ground arith in
        rw at (
          made_step _ (step-roles producers items i r below shape counts (pc i) known)
          ∙ ap (λ k. ltb k producers) same)
    | no other ↦ let at : pc' j ≡ pc j = ground arith in rw at (counts.roles j)
  ]

  Inv-Stopped : (j : ℕ) → Stopped (producers * items) m'.consumed (pc' j)
  Inv-Stopped j = elim (ℕ_discrete i j) [
    | yes same ↦
        let at : pc' j ≡ p' = ground arith in
        rw at (made_step _ (step-Stopped producers items i r below shape counts (pc i) known))
    | no other ↦
        let at : pc' j ≡ pc j = ground arith in
        rw at (
          Stopped-mono (producers * items) m.consumed m'.consumed (pc j)
            (made_step _ (step-consumed_mono producers items i r below shape counts (pc i) known))
            (counts.stopped j))
  ]

  Inv-Counts : Counts producers items n m' pc' rest'
  Inv-Counts = record {
    size_range = made_step _ (step-size_range producers items i r below shape counts (pc i) known);
    size_counted = Inv-size;
    produced_counted = omega (
      arith,
      counts.produced_counted,
      total-update enters pc i p' n below,
      made_step _ (step-produced producers items i r below shape counts (pc i) known),
    );
    consumed_counted = omega (
      arith,
      counts.consumed_counted,
      total-update leaves pc i p' n below,
      made_step _ (step-consumed producers items i r below shape counts (pc i) known),
    );
    made_counted = omega (
      arith,
      counts.made_counted,
      total-update (made items) pc i p' n below,
      made_step _ (step-made producers items i r below shape counts (pc i) known),
    );
    within = Inv-Within;
    roles = Inv-roles;
    outside = λ j h. ground (arith, counts.outside j h);
    stopped = Inv-Stopped;
  }

  -- A step of one thread keeps the invariant.
  pub step-Inv : Inv producers items n m' pc'
  step-Inv = record { rest = rest'; locks = Inv-Locks; shape = Inv-Shape; counts = Inv-Counts }
