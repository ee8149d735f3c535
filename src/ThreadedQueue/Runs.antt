-- ===== src/ThreadedQueue/Runs.antt =====
-- The invariant of ThreadedQueue.c holds at the start and in every state that the threads can reach.
use mathlib.Core.Path.{subst}
use c_programming_language.Base.{
  ℕ, ◌≡◌, ◌≢◌, refl, true, false, some, [], arith, update, ◌==◌, if◌then◌else◌,
}
use c_programming_language.Base.Threads.{total, total-constant}
use c_programming_language.Memory.{Ptr, null}
use c_programming_language.ThreadedQueue.{Shared, Pc, making, idle, fgq_init, one_node}
use c_programming_language.ThreadedQueue.State.{
  System, pick, Reach, start, later, start_pc, in_tail, in_head,
}
use c_programming_language.ThreadedQueue.Shape.{node_of, item_of, bit}
use c_programming_language.ThreadedQueue.Counts.{adds, removes, enters, leaves, made}
use c_programming_language.ThreadedQueue.Invariant.{Inv, step-Inv}

module _ (producers : ℕ) where
  start-zero :
      (w : Pc → ℕ) → w (making 0) ≡ 0 → w idle ≡ 0 → (n : ℕ) → total w n (start_pc producers) ≡ 0
  start-zero w e d n =
      omega (arith, total-constant w n (start_pc producers) 0 (λ i h. ground arith))

  start-outside :
      (i : ℕ) → (in_tail (start_pc producers i) ≡ false) × (in_head (start_pc producers i) ≡ false)
  start-outside i = ground arith

init-one_node :
    (dummy : Ptr) {m : Shared}
    → fgq_init dummy true true true ≡ some m
    → (dummy ≢ null) × (one_node dummy ≡ m)
unfolding fgq_init
init-one_node dummy e = ground arith

one_node-Inv :
    (producers items n : ℕ) (dummy : Ptr)
    → dummy ≢ null
    → Inv producers items n (one_node dummy) (start_pc producers)
one_node-Inv producers items n dummy h = record {
  rest = [];
  locks = record {
    tail_owner = λ i. ground arith;
    head_owner = λ i. ground arith;
    node_owner = λ p i e. cc;
  };
  shape = record {
    head_set = h;
    chain = refl;
    tail_at = λ e. refl;
    knows = λ i b. ground arith;
    nodes = λ a. omega (arith, start-zero producers (node_of a) refl refl n, dummy_alone a);
    items = λ a b. omega (arith, start-zero producers (item_of a) refl refl n);
    valued = tt;
    ordered = refl;
  };
  counts = record {
    size_range = omega arith;
    size_counted =
        omega
          (arith, start-zero producers adds refl refl n, start-zero producers removes refl refl n);
    produced_counted = omega (arith, start-zero producers enters refl refl n);
    consumed_counted = omega (arith, start-zero producers leaves refl refl n);
    made_counted = start-zero producers (made items) refl refl n;
    within = λ i. ground arith;
    roles = λ i. ground arith;
    outside = λ i h. refl;
    stopped = λ i. ground arith;
  };
}
  where
    dummy_alone : (a : Ptr) → (if a == dummy then 1 else 0) ≡ bit (update (λ _. false) dummy true a)
    dummy_alone a = ground arith

-- fgq_init gives the invariant of a program whose threads have not moved.
pub init-Inv :
    (producers items n : ℕ) (dummy : Ptr) {m : Shared}
    → fgq_init dummy true true true ≡ some m
    → Inv producers items n m (start_pc producers)
init-Inv producers items n dummy {m} e =
    let given = init-one_node dummy e in
    subst (λ q. Inv producers items n q (start_pc producers)) given.1
      (one_node-Inv producers items n dummy given.0)

pub Reach-Inv :
    {producers items n : ℕ} {s : System}
    → Reach producers items n s
    → Inv producers items n s.mem s.pc
Reach-Inv {producers} {items} {n} (start dummy e) = init-Inv producers items n dummy e
Reach-Inv {producers} {items} {n} (later r (pick i a b f e)) =
    step-Inv producers items n i a b f (Reach-Inv r) e
