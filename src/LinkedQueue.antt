-- ===== src/LinkedQueue.antt =====
-- DataStructures/Queue/Queue.c: a queue of linked nodes with a pointer to the front and one to the
-- rear, which the operations take by reference and return here. The value that `scanf` reads is an
-- argument, and so is what `malloc` leaves in the field `next`, which `enQueue` does not set.
pub mod Fifo
mod Tests
use c_programming_language.Base.{Bool, ◌==◌, if◌then◌else◌}
use c_programming_language.Base.Int.{ℤ}
use c_programming_language.Memory.{Ptr, null, Cmd, pure, ◌>>=◌, ◌>>◌, load, free, allocate}
use c_programming_language.Memory.Chain.{Node, node}
use c_programming_language.LinkedList.{set_next}

pub record Queue : Type 0 where
  pub front : Ptr
  pub rear : Ptr

unfoldable pub init : Queue
init = record { front = null; rear = null }

unfoldable pub is_empty : Ptr → Bool
is_empty front = front == null

-- `fresh` is what `malloc` returns, and `old` the content of its field `next`.
unfoldable pub en_queue : (fresh old : Ptr) → ℤ → Queue → Cmd Node Queue
unfolding allocate is_empty
en_queue fresh old x q =
    if fresh == null
    then pure q
    else (allocate fresh (node x old)
        >> (if is_empty q.rear
            then pure (record { front = fresh; rear = fresh })
            else (set_next q.rear fresh >> pure (record q { rear = fresh }))))

-- The value is the one that `deQueue` prints.
unfoldable pub de_queue : Queue → Cmd Node (ℤ × Queue)
de_queue q = do
  n ← load q.front
  free q.front
  pure (n.value, record { front = n.next; rear = if n.next == null then null else q.rear })
