-- ===== src/ThreadPool.antt =====
-- network_programming/ThreadPool/server.c: the ring of client sockets with its two semaphores and its
-- mutex, between the accept loop of main (thread 0) and the worker threads (the others). The file has
-- one step of one thread at a time. The fields of the ring, which only the owner of the mutex touches,
-- are read and written in one step. `sent` and `received` record the arguments of enqueue and the
-- results of dequeue as the ring takes and gives them; they are no variables of the program.
--
-- ThreadPool.Handler has handle_client.
pub mod Ring
pub mod State
pub mod Counts
pub mod Correct
pub mod Handler
pub mod Overflow
mod Tests
use c_programming_language.Base.{
  ℕ, suc, ◌+◌, ◌-◌, ◌%◌, ◌<◌, ◌≡◌, Bool, true, false, Option, none, some, List, [], ◌∷◌, ◌++◌, ltb,
  leb, ◌==◌, if◌then◌else◌, update,
}

-- MAX_QUEUE
abbrev pub max_queue : ℕ
max_queue = 16

-- task_queue_t; the mutex is the thread that owns it. A file descriptor is not negative where the
-- program stores it.
pub record Queue : Type 0 where
  pub client_sockets : ℕ → ℕ
  pub front : ℕ
  pub rear : ℕ
  pub count : ℕ
  pub mutex : Option ℕ
  pub sem_items : ℕ
  pub sem_slots : ℕ
  pub sent : List ℕ
  pub received : List ℕ

-- Where a thread stands, with the client that it has.
pub data Pc : Type 0 where
  accepting : Pc
  accepted : ℕ → Pc
  has_slot : ℕ → Pc
  in_lock : ℕ → Pc
  stored : Pc
  posting_item : Pc
  idle : Pc
  has_item : Pc
  out_lock : Pc
  loaded : ℕ → Pc
  posting_slot : ℕ → Pc
  serving : ℕ → Pc

-- A thread makes a step, or waits for a semaphore or the mutex.
pub data Outcome : Type 0 where
  moves : Queue → Pc → Outcome
  waits : Outcome

abbrev pub is_free : Option ℕ → Bool
is_free none = true
is_free (some i) = false

-- `sem_wait` of a semaphore with the value `v`
abbrev pub take : ℕ → Outcome → Outcome
take v o = if v == 0 then waits else o

-- `mtx_lock` of the mutex
abbrev pub lock : ℕ → Queue → Pc → Outcome
lock i q after = if is_free q.mutex then moves (record q { mutex = some i }) after else waits

abbrev pub queue_init : (ℕ → ℕ) → Queue
queue_init garbage = record {
  client_sockets = garbage;
  front = 0;
  rear = 0;
  count = 0;
  mutex = none;
  sem_items = 0;
  sem_slots = max_queue;
  sent = [];
  received = [];
}

-- Thread `i` in enqueue.
unfoldable pub enqueue : ℕ → Queue → Pc → Outcome
enqueue i q (accepted fd) =
    take q.sem_slots (moves (record q { sem_slots = q.sem_slots - 1 }) (has_slot fd))
enqueue i q (has_slot fd) = lock i q (in_lock fd)
enqueue i q (in_lock fd) =
    moves
      (record q {
        client_sockets = update q.client_sockets q.rear fd;
        rear = (q.rear + 1) % max_queue;
        count = q.count + 1;
        sent = q.sent ++ fd ∷ [];
      })
      stored
enqueue i q stored = moves (record q { mutex = none }) posting_item
enqueue i q posting_item = moves (record q { sem_items = q.sem_items + 1 }) accepting
enqueue i q pc = waits

-- Thread `i` in dequeue.
unfoldable pub dequeue : ℕ → Queue → Pc → Outcome
dequeue i q idle = take q.sem_items (moves (record q { sem_items = q.sem_items - 1 }) has_item)
dequeue i q has_item = lock i q out_lock
dequeue i q out_lock =
    moves
      (record q {
        front = (q.front + 1) % max_queue;
        count = q.count - 1;
        received = q.received ++ q.client_sockets q.front ∷ [];
      })
      (loaded (q.client_sockets q.front))
dequeue i q (loaded fd) = moves (record q { mutex = none }) (posting_slot fd)
dequeue i q (posting_slot fd) = moves (record q { sem_slots = q.sem_slots + 1 }) (serving fd)
dequeue i q pc = waits

-- main in its accept loop, where accept returns `client`, or fails.
unfoldable pub accept_loop : Option ℕ → ℕ → Queue → Pc → Outcome
accept_loop (some fd) i q accepting = moves q (accepted fd)
accept_loop none i q accepting = moves q accepting
accept_loop client i q pc = enqueue i q pc

-- A worker; handle_client is one step, which does not touch the queue.
unfoldable pub worker_thread : ℕ → Queue → Pc → Outcome
worker_thread i q (serving fd) = moves q idle
worker_thread i q pc = dequeue i q pc
