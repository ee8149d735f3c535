-- ===== src/ThreadPool/State.antt =====
-- The accept loop and the workers of ThreadPool/server.c over the queue, and the counts that the
-- semaphores keep.
use mathlib.Core.Path.{subst}
use c_programming_language.Base.{
  ℕ, zero, suc, ◌+◌, ◌%◌, ◌≤◌, ◌<◌, ◌≡◌, Bool, true, false, Option, none, some, ◌++◌, ◌==◌,
  if◌then◌else◌, update,
}
use c_programming_language.Base.Threads.{total}
use c_programming_language.ThreadPool.{
  max_queue, Queue, Pc, accepting, accepted, has_slot, in_lock, stored, posting_item, idle,
  has_item, out_lock, loaded, posting_slot, Outcome, moves, waits, accept_loop, worker_thread,
  enqueue, dequeue, queue_init,
}
use c_programming_language.ThreadPool.Ring.{window}

-- A step of thread `i`; `client` is what accept returns if the step calls it.
unfoldable pub step : Option ℕ → ℕ → Queue → Pc → Outcome
unfolding accept_loop worker_thread enqueue dequeue
step client i q pc = if i == 0 then accept_loop client i q pc else worker_thread i q pc

pub record System : Type 0 where
  pub queue : Queue
  pub pc : ℕ → Pc

abbrev pub start_pc : ℕ → Pc
start_pc zero = accepting
start_pc (suc i) = idle

-- The states that main and `n - 1` workers can come to, whatever the memory of the ring held.
pub data Reach (n : ℕ) : System → Type 0 where
  start : (garbage : ℕ → ℕ) → Reach n (record { queue = queue_init garbage; pc = start_pc })
  later :
      {s : System} (i : ℕ) (client : Option ℕ) {q : Queue} {p : Pc}
      → Reach n s
      → i < n
      → step client i s.queue (s.pc i) ≡ moves q p
      → Reach n (record { queue = q; pc = update s.pc i p })

-- If a step is made, what it leaves has the property.
abbrev pub After : (Queue → Pc → Type 0) → Outcome → Type 0
After P (moves q p) = P q p
After P waits = Unit

pub After-moves :
    (P : Queue → Pc → Type 0) (o : Outcome) {q : Queue} {p : Pc} → o ≡ moves q p → After P o → P q p
After-moves P o e a = subst (After P) e a

abbrev pub owned_by : Option ℕ → ℕ → Bool
owned_by none i = false
owned_by (some j) i = j == i

-- a thread between the lock and the unlock of the mutex
abbrev pub in_mutex : Pc → Bool
in_mutex (in_lock fd) = true
in_mutex stored = true
in_mutex out_lock = true
in_mutex (loaded fd) = true
in_mutex pc = false

-- a thread that has taken from sem_slots and not stored its client
abbrev pub reserves : Pc → ℕ
reserves (has_slot fd) = 1
reserves (in_lock fd) = 1
reserves pc = 0

-- a thread that has stored its client and not posted sem_items
abbrev pub delivers : Pc → ℕ
delivers stored = 1
delivers posting_item = 1
delivers pc = 0

-- a thread that has taken from sem_items and not loaded a client
abbrev pub claims : Pc → ℕ
claims has_item = 1
claims out_lock = 1
claims pc = 0

-- a thread that has loaded a client and not posted sem_slots
abbrev pub vacates : Pc → ℕ
vacates (loaded fd) = 1
vacates (posting_slot fd) = 1
vacates pc = 0

-- whether the place is one of the accept loop
abbrev pub accepts : Pc → Bool
accepts accepting = true
accepts (accepted fd) = true
accepts (has_slot fd) = true
accepts (in_lock fd) = true
accepts stored = true
accepts posting_item = true
accepts pc = false

pub record Inv (n : ℕ) (q : Queue) (pc : ℕ → Pc) : Type 0 where
  pub owner : (i : ℕ) → owned_by q.mutex i ≡ in_mutex (pc i)
  pub front_range : q.front < max_queue
  pub rear_at : q.rear ≡ (q.front + q.count) % max_queue
  pub slots : q.sem_slots + total reserves n pc + q.count + total vacates n pc ≡ max_queue
  pub items : q.sem_items + total claims n pc + total delivers n pc ≡ q.count
  pub ordered : q.sent ≡ q.received ++ window q.count q.front q.client_sockets
  pub roles : (i : ℕ) → accepts (pc i) ≡ (i == 0)
  pub outside : (i : ℕ) → n ≤ i → pc i ≡ start_pc i
