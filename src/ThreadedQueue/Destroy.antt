-- ===== src/ThreadedQueue/Destroy.antt =====
-- fgq_destroy and the end of main: the assertion on the size and the release of the nodes.
use c_programming_language.Base.{
  ℕ, zero, suc, ◌+◌, ◌<◌, ◌≡◌, ◌≢◌, Bool, false, Option, none, some, List, [], ◌∷◌, ◌==◌,
  if◌then◌else◌, arith, update, length,
}
use c_programming_language.Base.Threads.{count}
use c_programming_language.Memory.{Ptr, null}
use c_programming_language.ThreadedQueue.{Shared}
use c_programming_language.ThreadedQueue.Chain.{Follows}
use c_programming_language.ThreadedQueue.Shape.{bit}

-- The loop over the nodes, on fuel; `none` is also a read of a node that is not allocated.
unfoldable pub destroy_loop : ℕ → Ptr → (Ptr → Ptr) → (Ptr → Bool) → Option (Ptr → Bool)
destroy_loop zero n next live = none
destroy_loop (suc fuel) n next live =
    let rest = destroy_loop fuel (next n) next (update live n false) in
    if n == null then some live else if live n then rest else none

unfoldable pub fgq_destroy : ℕ → Shared → Option (Ptr → Bool)
unfolding destroy_loop
fgq_destroy fuel m = destroy_loop fuel m.head m.next m.live

-- What main does after the joins: the nodes that are allocated then, or `none` if the assertion fails.
unfoldable pub end_of_main : ℕ → Shared → Option (Ptr → Bool)
unfolding fgq_destroy
end_of_main fuel m = if m.size == 0 then fgq_destroy fuel m else none

-- Where the allocated nodes are those of the chain, all of them are released.
pub destroy_loop-all :
    (fuel : ℕ) (next : Ptr → Ptr) (live : Ptr → Bool) (h : Ptr) (xs : List Ptr)
    → length xs + 1 < fuel
    → h ≢ null
    → Follows next h xs
    → ((a : Ptr) → count a (h ∷ xs) ≡ bit (live a))
    → (live' : Ptr → Bool) × (destroy_loop fuel h next live ≡ some live')
      × ((a : Ptr) → live' a ≡ false)
unfolding destroy_loop
destroy_loop-all zero next live h xs f n c same = absurd (omega arith)
destroy_loop-all (suc zero) next live h xs f n c same = absurd (omega arith)
destroy_loop-all (suc (suc fuel)) next live h [] f n c same =
    (update live h false, ground (arith, same h), λ a. ground (arith, same a))
destroy_loop-all (suc fuel) next live h (x ∷ xs) f n c same =
    let (live', run, gone) =
      destroy_loop-all fuel next (update live h false) x xs (omega arith) c.1 c.2
        (λ a. ground (arith, same a, same h)) in
    (live', ground (arith, same h), gone)
