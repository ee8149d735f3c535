-- ===== src/ThreadedQueue/Progress.antt =====
-- Why no step of a thread of ThreadedQueue.c fails, and why some thread can always make one.
use native.Mathlib.Decide.{dec_lt}
use c_programming_language.Base.{
  ℕ, ◌<◌, ◌≡◌, ◌≢◌, ◌⊎◌, inl, inr, refl, ap, Bool, true, false, Option, none, some, arith,
}
use c_programming_language.Base.Threads.{le-total}
use c_programming_language.Memory.{Ptr}
use c_programming_language.ThreadedQueue.{
  Shared, Pc, making, has_node, tail_held, made_all, idle, head_held, old_held, empty, next_seen,
  next_held, taken, next_free, old_free, returned, took_all, waits, crashes, is_free,
}
use c_programming_language.ThreadedQueue.State.{step, in_tail, in_head}
use c_programming_language.ThreadedQueue.Locks.{node_free}
use c_programming_language.ThreadedQueue.Shape.{Knows, item_of}
use c_programming_language.ThreadedQueue.Facts.{own_node, last_queued, head_queued, next_queued}
use c_programming_language.ThreadedQueue.Invariant.{Inv}

-- a thread that has returned
abbrev pub ended : Pc → Bool
ended made_all = true
ended took_all = true
ended pc = false

-- a thread before `mtx_lock` of tail_lock, or of head_lock
abbrev wants_tail : Pc → Bool
wants_tail (has_node k p a) = true
wants_tail pc = false

abbrev wants_head : Pc → Bool
wants_head idle = true
wants_head pc = false

module _ (producers items n i : ℕ) {m : Shared} {pc : ℕ → Pc} (v : Inv producers items n m pc)
    (below : i < n) where
  open v use {rest, locks, shape, counts}

  -- An access of a thread that has a node for itself, or a value in hand, finds it allocated.
  pub step-ne-crashes :
      (r : Ptr) (p : Pc)
      → pc i ≡ p
      → Knows m.next m.value m.head m.tail rest p
      → step producers items i r m p ≢ crashes
  unfolding step
  step-ne-crashes r (making k) e c = ground arith
  step-ne-crashes r (tail_held k p a) e c = ground (arith, last_queued shape)
  step-ne-crashes r head_held e c = ground (arith, head_queued shape)
  step-ne-crashes r (old_held old) e c = ground (arith, head_queued shape)
  step-ne-crashes r (empty old) e c = ground (arith, head_queued shape)
  step-ne-crashes r (next_seen old nx) e c = ground (arith, next_queued shape nx c.1 c.2)
  step-ne-crashes r (next_held old nx) e c = ground (arith, next_queued shape nx c.1 c.2)
  step-ne-crashes r (taken old nx v) e c = ground (arith, head_queued shape)
  step-ne-crashes r (next_free old v) e c = ground (arith, own_node shape i old below)
  step-ne-crashes r (old_free old v) e c = ground (arith, own_node shape i old below)
  step-ne-crashes r (returned v) e c =
      ground (arith, shape.items v, le-total (item_of v) n pc i below)
  step-ne-crashes r _ e c = ground arith

  -- A thread that has not returned waits at most for the lock of one of the ends.
  step-ne-waits :
      (r : Ptr) (p : Pc)
      → pc i ≡ p
      → Knows m.next m.value m.head m.tail rest p
      → ended p ≡ false
      → (wants_tail p ≡ true → is_free m.tail_lock ≡ true)
      → (wants_head p ≡ true → is_free m.head_lock ≡ true)
      → step producers items i r m p ≢ waits
  unfolding step
  step-ne-waits r (making k) e c u t h = ground (arith, counts.roles i)
  step-ne-waits r head_held e c u t h = ground (arith, counts.roles i, node_free locks i m.head)
  step-ne-waits r (next_seen old nx) e c u t h =
      ground (arith, counts.roles i, node_free locks i nx, next_queued shape nx c.1 c.2)
  step-ne-waits r _ e c u t h = ground (arith, counts.roles i)

  Moves : Type 0
  Moves = (r : Ptr) → step producers items i r m (pc i) ≢ waits

  -- The owner of a lock of an end is no such thread.
  owner-Moves : (in_tail (pc i) ≡ true) ⊎ (in_head (pc i) ≡ true) → Moves
  unfolding Moves
  owner-Moves o r =
      let own = inside (pc i) o in
      step-ne-waits r (pc i) refl (shape.knows i below) own.0 (λ w. cc (own.1)) (λ w. cc (own.2))
    where
      inside :
          (p : Pc)
          → (in_tail p ≡ true) ⊎ (in_head p ≡ true)
          → (ended p ≡ false) × (wants_tail p ≡ false) × (wants_head p ≡ false)
      inside (making k) o = ground arith
      inside _ o = ground arith

module _ {producers items n : ℕ} {m : Shared} {pc : ℕ → Pc} (v : Inv producers items n m pc) where
  open v use {rest, locks, shape, counts}

  inside-lt : (j : ℕ) → (in_tail (pc j) ≡ true) ⊎ (in_head (pc j) ≡ true) → j < n
  inside-lt j o = elim (dec_lt j n) [
    | yes h ↦ h
    | no h ↦ absurd (let out = counts.outside j (omega arith) in ground arith)
  ]

  abbrev pub Awake : Type 0
  Awake = (j : ℕ) × (j < n) × ((r : Ptr) → step producers items j r m (pc j) ≢ waits)

  owner-Awake : (j : ℕ) → (in_tail (pc j) ≡ true) ⊎ (in_head (pc j) ≡ true) → Awake
  unfolding Moves
  owner-Awake j o = let h = inside-lt j o in (j, h, owner-Moves producers items n j v h o)

  pub some-Awake : (i : ℕ) → i < n → ended (pc i) ≡ false → Awake
  some-Awake i h u = go (m.tail_lock) refl (m.head_lock) refl
    where
      go : (t : Option ℕ) → m.tail_lock ≡ t → (k : Option ℕ) → m.head_lock ≡ k → Awake
      go (some j) e k d = owner-Awake j (inl (ground (arith, locks.tail_owner j)))
      go none e (some j) d = owner-Awake j (inr (ground (arith, locks.head_owner j)))
      go none e none d = (
        i,
        h,
        λ r.
            step-ne-waits producers items n i v h r (pc i) refl (shape.knows i h) u
              (λ w. ap is_free e) (λ w. ap is_free d),
      )
