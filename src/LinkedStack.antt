-- ===== src/LinkedStack.antt =====
-- DataStructures/Stack.c: a stack of linked nodes. The operations take the pointer to the top by
-- reference and return it here; the value that `scanf` reads is an argument.
pub mod Lifo
mod Tests
use c_programming_language.Base.{Bool, ◌==◌, if◌then◌else◌}
use c_programming_language.Base.Int.{ℤ}
use c_programming_language.Memory.{Ptr, null, Cmd, pure, ◌>>=◌, ◌>>◌, load, free, allocate}
use c_programming_language.Memory.Chain.{Node, node}
use c_programming_language.LinkedList.{set_next}

unfoldable pub is_empty : Ptr → Bool
is_empty top = top == null

-- `fresh` is what `malloc` returns.
unfoldable pub push : Ptr → ℤ → Ptr → Cmd Node Ptr
unfolding allocate is_empty
push fresh x top =
    if fresh == null
    then pure top
    else (allocate fresh (node x null)
        >> (if is_empty top then pure fresh else (set_next fresh top >> pure fresh)))

-- The value is the one that `pop` prints.
unfoldable pub pop : Ptr → Cmd Node (ℤ × Ptr)
pop top = do n ← load top; free top; pure (n.value, n.next)
