-- ===== src/LinkedList.antt =====
-- DataStructures/LinkedList/DQ.c: a singly linked list with insertion and removal at both ends. An
-- operation on `SL **` takes the pointer and returns the new one. A loop runs on fuel. `malloc` is
-- taken to return room for a node, though `create_node` asks it for `sizeof(int)` bytes only.
-- Prints are left out.
pub mod Walk
pub mod Front
pub mod Back
pub mod Reverse
mod Tests
use c_programming_language.Base.{ℕ, zero, suc, Bool, true, false, ◌==◌, if◌then◌else◌}
use c_programming_language.Base.Int.{ℤ}
use c_programming_language.Memory.{
  Ptr, null, Cmd, out_of_fuel, pure, ◌>>=◌, ◌>>◌, load, store, free, allocate,
}
use c_programming_language.Memory.Chain.{Node, node}

-- `fresh` is what `malloc` returns.
unfoldable pub create_node : Ptr → ℤ → Cmd Node Ptr
unfolding allocate
create_node fresh data_ =
    if fresh == null then pure null else (allocate fresh (node data_ null) >> pure fresh)

-- `p->next = q`
unfoldable pub set_next : Ptr → Ptr → Cmd Node (Unit {0})
set_next p q = do n ← load p; store p (record n { next = q })

unfoldable pub is_empty : Ptr → Bool
is_empty top = top == null

unfoldable pub reverse_loop : ℕ → (prev cur : Ptr) → Cmd Node Ptr
reverse_loop zero prev cur = λ s. out_of_fuel
reverse_loop (suc fuel) prev cur =
    if cur == null
    then pure prev
    else do n ← load cur; set_next cur prev; reverse_loop fuel cur n.next

unfoldable pub reverse_list : ℕ → Ptr → Cmd Node Ptr
reverse_list fuel l = reverse_loop fuel null l

unfoldable pub remove_first : Ptr → Cmd Node Ptr
unfolding is_empty
remove_first top = if is_empty top then pure top else do n ← load top; free top; pure n.next

-- the loop of `remove_last`: the last node and the one before it
unfoldable pub last_two_loop : ℕ → (t prev : Ptr) → Cmd Node (Ptr × Ptr)
last_two_loop zero t prev = λ s. out_of_fuel
last_two_loop (suc fuel) t prev = do
  n ← load t
  if n.next == null then pure (t, prev) else last_two_loop fuel n.next t

unfoldable pub remove_last : ℕ → Ptr → Cmd Node Ptr
remove_last fuel head =
    if head == null
    then pure head
    else do (t, prev) ← last_two_loop fuel head null; load t; set_next prev null; free t; pure head

unfoldable pub insert_front : Ptr → Ptr → ℤ → Cmd Node Ptr
insert_front fresh head data_ = do n ← create_node fresh data_; set_next n head; pure n

-- the loop of `insert_last` and of `append`: the last node
unfoldable pub last_loop : ℕ → Ptr → Cmd Node Ptr
last_loop zero t = λ s. out_of_fuel
last_loop (suc fuel) t = do n ← load t; if n.next == null then pure t else last_loop fuel n.next

unfoldable pub insert_last : ℕ → Ptr → Ptr → ℤ → Cmd Node Ptr
insert_last fuel fresh head data_ = do
  t ← last_loop fuel head
  n ← create_node fresh data_
  set_next t n
  pure head

unfoldable pub free_list : ℕ → Ptr → Cmd Node (Unit {0})
free_list zero head = λ s. out_of_fuel
free_list (suc fuel) head =
    if head == null then pure tt else do n ← load head; free head; free_list fuel n.next

unfoldable pub append : ℕ → Ptr → Ptr → ℤ → Cmd Node Ptr
append fuel fresh head data_ =
    if head == null
    then create_node fresh data_
    else do cur ← last_loop fuel head; n ← create_node fresh data_; set_next cur n; pure head
