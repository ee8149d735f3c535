-- ===== src/ThreadedQueue/Locks.antt =====
-- Each lock of the queue belongs to the thread that stands between its lock and its unlock.
use c_programming_language.Base.{ℕ, ◌≡◌, refl, true, false, Option, some, none, arith, update}
use c_programming_language.Memory.{Ptr}
use c_programming_language.ThreadedQueue.{Shared, Pc, making}
use c_programming_language.ThreadedQueue.State.{step, After, in_tail, in_head, in_node, owned_by}

pub record Locks (m : Shared) (pc : ℕ → Pc) : Type 0 where
  pub tail_owner : (i : ℕ) → owned_by m.tail_lock i ≡ in_tail (pc i)
  pub head_owner : (i : ℕ) → owned_by m.head_lock i ≡ in_head (pc i)
  pub node_owner : (p : Ptr) (i : ℕ) → m.lock p ≡ some i → in_node p (pc i) ≡ true

-- A thread that waits for the lock of a node has it to itself.
pub node_free :
    {m : Shared} {pc : ℕ → Pc}
    → Locks m pc
    → (i : ℕ) (p : Ptr) → in_head (pc i) ≡ true
    → in_node p (pc i) ≡ false
    → m.lock p ≡ none
node_free {m} {pc} l i p h out = go (m.lock p) refl
  where
    inside : (c : Pc) → in_node p c ≡ true → in_head c ≡ true
    inside (making k) e = cc
    inside _ e = ground arith

    go : (o : Option ℕ) → m.lock p ≡ o → m.lock p ≡ none
    go none e = e
    go (some j) e =
        let held = l.node_owner p j e in
        let both = inside (pc j) held in ground (arith, l.head_owner i, l.head_owner j)

module _ (producers items i : ℕ) (r : Ptr) {m : Shared} {pc : ℕ → Pc} (l : Locks m pc) where
  pub step-tail_owner :
      (p : Pc)
      → pc i ≡ p
      → (j : ℕ)
      → After
          (λ m' p'. owned_by m'.tail_lock j ≡ in_tail (update pc i p' j))
          (step producers items i r m p)
  unfolding step
  step-tail_owner (making k) e j = ground (arith, l.tail_owner i, l.tail_owner j)
  step-tail_owner _ e j = ground (arith, l.tail_owner i, l.tail_owner j)

  pub step-head_owner :
      (p : Pc)
      → pc i ≡ p
      → (j : ℕ)
      → After
          (λ m' p'. owned_by m'.head_lock j ≡ in_head (update pc i p' j))
          (step producers items i r m p)
  unfolding step
  step-head_owner (making k) e j = ground (arith, l.head_owner i, l.head_owner j)
  step-head_owner _ e j = ground (arith, l.head_owner i, l.head_owner j)

  pub step-node_owner :
      (p : Pc)
      → pc i ≡ p
      → (q : Ptr) (j : ℕ)
      → After
          (λ m' p'. m'.lock q ≡ some j → in_node q (update pc i p' j) ≡ true)
          (step producers items i r m p)
  unfolding step
  step-node_owner (making k) e q j = ground (arith, l.node_owner q j)
  step-node_owner _ e q j = ground (arith, l.node_owner q j, l.node_owner q i)
