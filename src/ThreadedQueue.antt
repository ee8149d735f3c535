-- ===== src/ThreadedQueue.antt =====
-- ThreadedDataStructures/ThreadedQueue.c: a linked queue with a dummy node, a lock for each end and
-- one in each node, between producer and consumer threads. The file has one step of one thread at a
-- time: each access that two threads can make at once is a step of its own, and each step is atomic.
-- What a thread does to memory that no other thread reaches (a node before it is linked, `q->head`
-- and the values behind it for the owner of head_lock) belongs to one step.
--
-- The mallocs of nodes and of integers have a store each; the functions that malloc calls for take
-- the address that it returns. `sent` and `received` are no variables of the program: they record the
-- arguments of fgq_enqueue as they are linked, and the values that fgq_dequeue reads.
pub mod Chain
pub mod State
pub mod Locks
pub mod Shape
pub mod Facts
pub mod Moves
pub mod Others
pub mod Counts
pub mod Invariant
pub mod Runs
pub mod Destroy
pub mod Progress
pub mod Ending
pub mod Correct
pub mod Schedules
mod Tests
use Prim.Native.Nat.{bit_xor}
use c_programming_language.Base.{
  ℕ, zero, suc, ◌+◌, ◌-◌, ◌*◌, ◌%◌, ◌^◌, ◌<◌, ◌≡◌, Bool, true, false, ◌&&◌, Option, none, some,
  List, [], ◌∷◌, ◌++◌, ltb, leb, ◌==◌, if◌then◌else◌, update,
}
use c_programming_language.Memory.{Ptr, null}

-- fg_queue_t with the nodes field by field, the integers, and the two counters of the program.
-- A lock is the thread that owns it.
pub record Shared : Type 0 where
  pub live : Ptr → Bool
  pub value : Ptr → Ptr
  pub next : Ptr → Ptr
  pub lock : Ptr → Option ℕ
  pub cells : Ptr → Option ℕ
  pub head : Ptr
  pub tail : Ptr
  pub tail_lock : Option ℕ
  pub head_lock : Option ℕ
  pub size : ℕ
  pub produced : ℕ
  pub consumed : ℕ
  pub sent : List Ptr
  pub received : List Ptr

-- Where a thread stands, with the variables that it still needs: `k` values made, the node `p`, the
-- value `a`, the old head, the next node `nx`, the result `v`.
pub data Pc : Type 0 where
  making : ℕ → Pc
  has_item : ℕ → Ptr → Pc
  has_node : ℕ → Ptr → Ptr → Pc
  tail_held : ℕ → Ptr → Ptr → Pc
  linked : ℕ → Ptr → Pc
  tail_set : ℕ → Pc
  tail_free : ℕ → Pc
  counted_in : ℕ → Pc
  made_all : Pc
  idle : Pc
  head_held : Pc
  old_held : Ptr → Pc
  empty : Ptr → Pc
  empty_free : Pc
  next_seen : Ptr → Ptr → Pc
  next_held : Ptr → Ptr → Pc
  taken : Ptr → Ptr → Ptr → Pc
  next_free : Ptr → Ptr → Pc
  old_free : Ptr → Ptr → Pc
  freed : Ptr → Pc
  counted_out : Ptr → Pc
  returned : Ptr → Pc
  disposed : Pc
  checking : Pc
  checked : ℕ → Pc
  took_all : Pc

-- A thread makes a step, or waits for a lock or has ended; or the program ends, by `abort()` or by an
-- access to memory that is not allocated.
pub data Outcome : Type 0 where
  moves : Shared → Pc → Outcome
  waits : Outcome
  aborts : Outcome
  crashes : Outcome

abbrev pub is_free : Option ℕ → Bool
is_free none = true
is_free (some i) = false

-- an access to a node that is not allocated
abbrev pub at_node : Shared → Ptr → Outcome → Outcome
at_node m p o = if m.live p then o else crashes

-- `mtx_lock` of the lock in a node
abbrev pub lock_node : ℕ → Shared → Ptr → Pc → Outcome
lock_node i m p after = at_node m p (
    if is_free (m.lock p)
    then moves (record m { lock = update m.lock p (some i) }) after
    else waits)

abbrev pub unlock_node : Shared → Ptr → Pc → Outcome
unlock_node m p after = at_node m p (moves (record m { lock = update m.lock p none }) after)

abbrev pub size_mod : ℕ
size_mod = 2 ^ 64

-- Thread `i` in fgq_enqueue; `r` is the address that malloc returns.
unfoldable pub fgq_enqueue : ℕ → Ptr → Shared → Pc → Outcome
fgq_enqueue i r m (has_item k a) =
    if r == null
    then aborts
    else moves
        (record m {
          live = update m.live r true;
          value = update m.value r a;
          next = update m.next r null;
          lock = update m.lock r none;
        })
        (has_node k r a)
fgq_enqueue i r m (has_node k p a) =
    if is_free m.tail_lock then moves (record m { tail_lock = some i }) (tail_held k p a) else waits
fgq_enqueue i r m (tail_held k p a) =
    at_node m m.tail
      (moves (record m { next = update m.next m.tail p; sent = m.sent ++ a ∷ [] }) (linked k p))
fgq_enqueue i r m (linked k p) = moves (record m { tail = p }) (tail_set k)
fgq_enqueue i r m (tail_set k) = moves (record m { tail_lock = none }) (tail_free k)
fgq_enqueue i r m (tail_free k) = moves (record m { size = (m.size + 1) % size_mod }) (counted_in k)
fgq_enqueue i r m pc = waits

-- Thread `i` in fgq_dequeue.
unfoldable pub fgq_dequeue : ℕ → Shared → Pc → Outcome
fgq_dequeue i m idle =
    if is_free m.head_lock then moves (record m { head_lock = some i }) head_held else waits
fgq_dequeue i m head_held = lock_node i m m.head (old_held m.head)
fgq_dequeue i m (old_held old) =
    at_node m old
      (if m.next old == null then moves m (empty old) else moves m (next_seen old (m.next old)))
fgq_dequeue i m (empty old) = unlock_node m old empty_free
fgq_dequeue i m empty_free = moves (record m { head_lock = none }) (returned null)
fgq_dequeue i m (next_seen old nx) = lock_node i m nx (next_held old nx)
fgq_dequeue i m (next_held old nx) = at_node m nx (
    moves
      (record m {
        head = nx;
        value = update m.value nx null;
        received = m.received ++ m.value nx ∷ [];
      })
      (taken old nx (m.value nx)))
fgq_dequeue i m (taken old nx v) = unlock_node m nx (next_free old v)
fgq_dequeue i m (next_free old v) = unlock_node m old (old_free old v)
fgq_dequeue i m (old_free old v) =
    at_node m old (moves (record m { live = update m.live old false }) (freed v))
fgq_dequeue i m (freed v) =
    moves (record m { size = (m.size + size_mod - 1) % size_mod }) (counted_out v)
fgq_dequeue i m (counted_out v) = moves (record m { head_lock = none }) (returned v)
fgq_dequeue i m pc = waits

-- Thread `i` in producer_thread, with `items` values to make.
unfoldable pub producer_thread : ℕ → ℕ → Ptr → Shared → Pc → Outcome
producer_thread items i r m (making k) =
    if ltb k items
    then (if r == null
        then aborts
        else moves (record m { cells = update m.cells r (some (bit_xor (i * 2 ^ 24) k)) })
            (has_item k r))
    else moves m made_all
producer_thread items i r m (counted_in k) =
    moves (record m { produced = m.produced + 1 }) (making (suc k))
producer_thread items i r m pc = fgq_enqueue i r m pc

-- `free(v)` of an integer
abbrev pub dispose : Shared → Ptr → Option ℕ → Outcome
dispose m v none = crashes
dispose m v (some c) = moves (record m { cells = update m.cells v none }) disposed

-- Thread `i` in consumer_thread, with `total` values to consume by all of them.
unfoldable pub consumer_thread : ℕ → ℕ → Shared → Pc → Outcome
consumer_thread total i m (returned v) =
    if v == null then moves m checking else dispose m v (m.cells v)
consumer_thread total i m disposed =
    moves (record m { consumed = m.consumed + 1 })
      (if leb total (m.consumed + 1) then took_all else idle)
consumer_thread total i m checking = moves m (checked m.produced)
consumer_thread total i m (checked prod) =
    moves m (if leb total prod && leb total m.consumed then took_all else idle)
consumer_thread total i m pc = fgq_dequeue i m pc

-- the queue with its dummy node alone
abbrev pub one_node : Ptr → Shared
one_node dummy = record {
  live = update (λ _. false) dummy true;
  value = λ _. null;
  next = λ _. null;
  lock = λ _. none;
  cells = λ _. none;
  head = dummy;
  tail = dummy;
  tail_lock = none;
  head_lock = none;
  size = 0;
  produced = 0;
  consumed = 0;
  sent = [];
  received = [];
}

-- fgq_init, with the address that malloc returns and whether each mtx_init succeeds: the queue, where
-- the status is 0. On each failure the node is released, and there is no queue.
unfoldable pub fgq_init : Ptr → Bool → Bool → Bool → Option Shared
fgq_init dummy node_ok tail_ok head_ok =
    if dummy == null
    then none
    else if node_ok && tail_ok && head_ok
    then some (one_node dummy)
    else none
