-- ===== src/Deque.antt =====
-- DataStructures/DoublyLinkedListDequ.c: a list with pointers both ways, its head, its tail and its
-- size, which the operations take by reference and return here. A failed `assert` is a fault. Prints
-- are left out.
pub mod RoundTrip
mod Tests
use c_programming_language.Base.{ℕ, zero, suc, ◌==◌, if◌then◌else◌}
use c_programming_language.Base.Int.{ℤ, pos, negsuc, ◌+ℤ◌}
use c_programming_language.Memory.{
  Ptr, null, Cmd, fault, out_of_fuel, pure, ◌>>=◌, ◌>>◌, load, store, free, allocate,
}

pub record Node : Type 0 where
  pub value : ℤ
  pub next : Ptr
  pub prev : Ptr

pub record Deque : Type 0 where
  pub head : Ptr
  pub tail : Ptr
  pub size : ℤ

unfoldable pub init : Deque
init = record { head = null; tail = null; size = pos 0 }

-- `fresh` is what `malloc` returns.
unfoldable pub create_node : Ptr → ℤ → Cmd Node Ptr
unfolding allocate
create_node fresh d =
    if fresh == null
    then (λ s. fault)
    else (allocate fresh (record { value = d; next = null; prev = null }) >> pure fresh)

-- `p->next = q`
unfoldable pub set_next : Ptr → Ptr → Cmd Node (Unit {0})
set_next p q = do n ← load p; store p (record n { next = q })

-- `p->prev = q`
unfoldable pub set_prev : Ptr → Ptr → Cmd Node (Unit {0})
set_prev p q = do n ← load p; store p (record n { prev = q })

unfoldable pub insert_last : Ptr → ℤ → Deque → Cmd Node Deque
insert_last fresh d q = do
  n ← create_node fresh d
  set_next q.tail n
  set_prev n q.tail
  pure (record q { tail = n; size = q.size +ℤ pos 1 })

unfoldable pub remove_last : Deque → Cmd Node Deque
remove_last q = do
  t ← load q.tail
  set_next t.prev null
  free q.tail
  pure (record q { tail = t.prev; size = q.size +ℤ negsuc 0 })

unfoldable pub insert_first : Ptr → ℤ → Deque → Cmd Node Deque
insert_first fresh d q = do
  n ← create_node fresh d
  set_prev q.head n
  set_next n q.head
  pure (record q { head = n; size = q.size +ℤ pos 1 })

unfoldable pub remove_first : Deque → Cmd Node Deque
remove_first q = do
  h ← load q.head
  set_prev h.next null
  free q.head
  pure (record q { head = h.next; size = q.size +ℤ negsuc 0 })

-- A loop runs on fuel. The tail stays.
unfoldable pub delete_dq : ℕ → Deque → Cmd Node Deque
delete_dq zero q = λ s. out_of_fuel
delete_dq (suc fuel) q = if q.head == null then pure q else (do
  h ← load q.head
  free q.head
  delete_dq fuel (record q { head = h.next; size = q.size +ℤ negsuc 0 }))

-- the loop of `insert`: the last node from `cur` on
unfoldable pub last_loop : ℕ → Ptr → Cmd Node Ptr
last_loop zero cur = λ s. out_of_fuel
last_loop (suc fuel) cur = do
  n ← load cur
  if n.next == null then pure cur else last_loop fuel n.next

-- The first node becomes the head and not the tail.
unfoldable pub insert : ℕ → Ptr → ℤ → Deque → Cmd Node Deque
insert fuel fresh d q = do
  n ← create_node fresh d
  if q.head == null then pure (record q { head = n; size = q.size +ℤ pos 1 }) else (do
    cur ← last_loop fuel q.head
    set_next cur n
    set_prev n cur
    pure (record q { tail = n; size = q.size +ℤ pos 1 }))
