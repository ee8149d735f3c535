-- ===== src/ListInsert.antt =====
-- DataStructures/BinaryTree/TreeAndList.c: `insertList`, the insertion into a linked list in ascending
-- order. The loop runs on fuel; the message of a failed `malloc` is left out.
pub mod Place
pub mod Linked
mod Tests
use c_programming_language.Base.{
  ℕ, zero, suc, ◌+◌, ◌-◌, ◌*◌, ◌/◌, ◌%◌, ◌^◌, ◌≤◌, ◌<◌, ◌≡◌, refl, sym, ap, ◌∙◌, ◌≢◌, ◌↔◌, ◌⊎◌, inl,
  inr, Bool, true, false, ◌&&◌, ◌||◌, not, Option, none, some, List, [], ◌∷◌, ◌++◌, map, arith, ltb,
  leb, ◌==◌, if◌then◌else◌, Bool-cases, Option-cases, length, get_elem?, get_or, set, replicate,
  All, update, mem, length-append, length-set, length-replicate, get_or-set, All-append,
}
use c_programming_language.Base.Int.{ℤ, ltb_ℤ}
use c_programming_language.Memory.{Ptr, null, Cmd, out_of_fuel, pure, ◌>>=◌, ◌>>◌, load, allocate}
use c_programming_language.Memory.Chain.{Node, node}
use c_programming_language.LinkedList.{set_next}

-- `while(cur!=NULL && data>cur->x)`
unfoldable pub place_loop : ℕ → ℤ → (prev cur : Ptr) → Cmd Node (Ptr × Ptr)
place_loop zero data_ prev cur = λ s. out_of_fuel
place_loop (suc fuel) data_ prev cur = if cur == null then pure (prev, cur) else (do
  n ← load cur
  if ltb_ℤ n.value data_ then place_loop fuel data_ cur n.next else pure (prev, cur))

-- the branch for a list whose first value is not greater
unfoldable pub insert_behind : ℕ → Ptr → ℤ → Ptr → Cmd Node Ptr
insert_behind fuel fresh data_ head = do
  (prev, cur) ← place_loop fuel data_ head head
  set_next prev fresh
  set_next fresh cur
  pure head

-- `fresh` is what `malloc` returns.
unfoldable pub insert_list : ℕ → Ptr → ℤ → Ptr → Cmd Node Ptr
unfolding allocate
insert_list fuel fresh data_ head =
    if fresh == null
    then pure head
    else (allocate fresh (node data_ null)
        >> (if head == null then pure fresh else (do
          h ← load head
          if ltb_ℤ data_ h.value
              then (set_next fresh head >> pure fresh)
              else insert_behind fuel fresh data_ head)))
