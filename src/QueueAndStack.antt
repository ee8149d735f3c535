-- ===== src/QueueAndStack.antt =====
-- DataStructures/queueandstack.c: a queue and a stack of linked nodes, and how `main` moves values
-- from the one to the other. The nodes of both have the same fields.
pub mod Moves
mod Tests
use c_programming_language.Base.{Bool, ◌==◌, ◌&&◌, if◌then◌else◌}
use c_programming_language.Base.Int.{ℤ}
use c_programming_language.Memory.{Ptr, null, Cmd, pure, ◌>>=◌, ◌>>◌, load, free, allocate}
use c_programming_language.Memory.Chain.{Node, node}
use c_programming_language.LinkedList.{set_next}
use c_programming_language.LinkedQueue.{Queue}

unfoldable pub stack_is_empty : Ptr → Bool
stack_is_empty top = top == null

unfoldable pub queue_is_empty : Ptr → Bool
queue_is_empty front = front == null

-- `fresh` is what `malloc` returns.
unfoldable pub push : Ptr → ℤ → Ptr → Cmd Node Ptr
unfolding allocate stack_is_empty
push fresh data_ top =
    if fresh == null
    then pure top
    else (allocate fresh (node data_ null)
        >> (if stack_is_empty top then pure fresh else (set_next fresh top >> pure fresh)))

-- The value is the one that `pop` prints.
unfoldable pub pop : Ptr → Cmd Node (ℤ × Ptr)
pop top = do n ← load top; free top; pure (n.value, n.next)

unfoldable pub init : Queue
init = record { front = null; rear = null }

-- `old` is what `malloc` leaves in the field `next`.
unfoldable pub en_queue : (fresh old : Ptr) → ℤ → Queue → Cmd Node Queue
unfolding allocate queue_is_empty
en_queue fresh old x q =
    if fresh == null
    then pure q
    else (allocate fresh (node x old)
        >> (if queue_is_empty q.front && queue_is_empty q.rear
            then pure (record { front = fresh; rear = fresh })
            else (set_next q.rear fresh >> pure (record q { rear = fresh }))))

unfoldable pub de_queue : Queue → Cmd Node (ℤ × Queue)
de_queue q = do
  n ← load q.front
  free q.front
  pure (n.value, record { front = n.next; rear = if n.next == null then null else q.rear })

-- `deQueue(&qPtr1,&qPtr1)`, as `main` calls it: `*rear` is the front, and the rear stays.
unfoldable pub de_queue_aliased : Queue → Cmd Node (ℤ × Queue)
de_queue_aliased q = do
  n ← load q.front
  free q.front
  pure (n.value, record q { front = if n.next == null then null else n.next })

-- `k=deQueue(&qPtr1,&qPtr1); push(&stackPtr,k);`
unfoldable pub move : Ptr → Queue → Ptr → Cmd Node (Queue × Ptr)
unfolding de_queue_aliased push
move fresh q top = do (k, q') ← de_queue_aliased q; top' ← push fresh k top; pure (q', top')
