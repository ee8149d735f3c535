-- ===== src/ThreadedQueue/State.antt =====
-- All threads of ThreadedQueue.c over the shared memory: the threads below `producers` run
-- producer_thread, the others consumer_thread. A thread that is not created yet, or not scheduled, is
-- one that has not moved.
use c_programming_language.Base.{
  ℕ, ◌*◌, ◌<◌, ◌≡◌, ◌⊎◌, Bool, true, false, Option, none, some, ltb, ◌==◌, ◌||◌, if◌then◌else◌,
  update,
}
use mathlib.Core.Path.{subst}
use c_programming_language.Memory.{Ptr, null}
use c_programming_language.ThreadedQueue.{
  Shared, Pc, making, tail_held, linked, tail_set, idle, head_held, old_held, empty, empty_free,
  next_seen, next_held, taken, next_free, old_free, freed, counted_out, Outcome, moves, waits,
  aborts, crashes, producer_thread, consumer_thread, fgq_enqueue, fgq_dequeue, fgq_init,
}

-- A step of thread `i`, with `r` from malloc. The total is that of main.
unfoldable pub step : ℕ → ℕ → ℕ → Ptr → Shared → Pc → Outcome
unfolding producer_thread consumer_thread fgq_enqueue fgq_dequeue
step producers items i r m pc =
    if ltb i producers
    then producer_thread items i r m pc
    else consumer_thread (producers * items) i m pc

-- What malloc may return: NULL, or an address that is not in use.
abbrev pub Fresh : Shared → Ptr → Type 0
Fresh m r = (r ≡ null) ⊎ ((m.live r ≡ false) × (m.cells r ≡ none))

pub record System : Type 0 where
  pub mem : Shared
  pub pc : ℕ → Pc

abbrev pub start_pc : ℕ → ℕ → Pc
start_pc producers i = if ltb i producers then making 0 else idle

pub data Step (producers items n : ℕ) (s : System) : System → Type 0 where
  pick :
      (i : ℕ) (r : Ptr) {m : Shared} {p : Pc}
      → i < n
      → Fresh s.mem r
      → step producers items i r s.mem (s.pc i) ≡ moves m p
      → Step producers items n s (record { mem = m; pc = update s.pc i p })

-- The states that `n` threads can come to from the queue that fgq_init returns.
pub data Reach (producers items n : ℕ) : System → Type 0 where
  start :
      (dummy : Ptr) {m : Shared}
      → fgq_init dummy true true true ≡ some m
      → Reach producers items n (record { mem = m; pc = start_pc producers })
  later :
      {s t : System}
      → Reach producers items n s
      → Step producers items n s t
      → Reach producers items n t

-- If a step is made, what it leaves has the property.
abbrev pub After : (Shared → Pc → Type 0) → Outcome → Type 0
After P (moves m p) = P m p
After P waits = Unit
After P aborts = Unit
After P crashes = Unit

-- a thread between the lock and the unlock of tail_lock
abbrev pub in_tail : Pc → Bool
in_tail (tail_held k p a) = true
in_tail (linked k p) = true
in_tail (tail_set k) = true
in_tail pc = false

-- a thread between the lock and the unlock of head_lock
abbrev pub in_head : Pc → Bool
in_head head_held = true
in_head (old_held old) = true
in_head (empty old) = true
in_head empty_free = true
in_head (next_seen old nx) = true
in_head (next_held old nx) = true
in_head (taken old nx v) = true
in_head (next_free old v) = true
in_head (old_free old v) = true
in_head (freed v) = true
in_head (counted_out v) = true
in_head pc = false

-- whether a thread there owns the lock in a node
abbrev pub in_node : Ptr → Pc → Bool
in_node p (old_held old) = p == old
in_node p (empty old) = p == old
in_node p (next_seen old nx) = p == old
in_node p (next_held old nx) = (p == old) || (p == nx)
in_node p (taken old nx v) = (p == old) || (p == nx)
in_node p (next_free old v) = p == old
in_node p pc = false

abbrev pub owned_by : Option ℕ → ℕ → Bool
owned_by none i = false
owned_by (some j) i = j == i

pub After-mono :
    (P Q : Shared → Pc → Type 0) (o : Outcome)
    → After P o
    → ((m : Shared) (p : Pc) → P m p → Q m p)
    → After Q o
After-mono P Q (moves m p) a w = w m p a
After-mono P Q waits a w = tt
After-mono P Q aborts a w = tt
After-mono P Q crashes a w = tt

pub After-moves :
    (P : Shared → Pc → Type 0) (o : Outcome) {m : Shared} {p : Pc}
    → o ≡ moves m p
    → After P o
    → P m p
After-moves P o e a = subst (After P) e a
