-- ===== src/ThreadedQueue/Tests.antt =====
-- One producer of one value and one consumer, in two orders; the theorems where they have got to.
use c_programming_language.Base.{
  ℕ, zero, suc, ◌*◌, ◌^◌, ◌-◌, ◌<◌, ◌≡◌, ◌≢◌, refl, Bool, true, false, none, some, List, [], ◌∷◌,
  ◌++◌, map, arith, length,
}
use c_programming_language.Memory.{Ptr, null}
use c_programming_language.ThreadedQueue.{fgq_init, crashes, waits}
use c_programming_language.ThreadedQueue.Chain.{Follows}
use c_programming_language.ThreadedQueue.State.{step}
use c_programming_language.ThreadedQueue.Progress.{ended}
use c_programming_language.ThreadedQueue.Destroy.{end_of_main}
use c_programming_language.ThreadedQueue.Correct.{
  no_crash, taken_in_order, no_deadlock, all_returned,
}
use c_programming_language.ThreadedQueue.Schedules.{Run, init, run}

abbrev first_state : Run 1 1 2
unfolding fgq_init
first_state = init 1 1 2 5 refl

abbrev repeat : ℕ → ℕ → List (ℕ × Ptr)
repeat zero i = []
repeat (suc k) i = (i, null) ∷ repeat k i

-- the producer has linked its node
abbrev linked_state : Run 1 1 2
linked_state = run first_state ((0, 7) ∷ (0, 9) ∷ repeat 2 0)

-- both threads have returned
abbrev last_state : Run 1 1 2
last_state = run linked_state (repeat 5 0 ++ repeat 12 1)

returned_in_order : last_state.last.mem.received ≡ 7 ∷ []
unfolding run init first_state
returned_in_order = refl

-- The consumer takes the value before the producer has counted it, and the size wraps round.
size_wraps : (run linked_state (repeat 10 1)).last.mem.size ≡ 2 ^ 64 - 1
unfolding run init first_state
size_wraps = refl

no_crash_example : step 1 1 1 0 linked_state.last.mem (linked_state.last.pc 1) ≢ crashes
no_crash_example = no_crash linked_state.reach 1 0 (omega arith)

taken_in_order_example :
    (xs : List Ptr) × Follows last_state.last.mem.next last_state.last.mem.head xs
    × (last_state.last.mem.sent ≡ last_state.last.mem.received ++ map last_state.last.mem.value xs)
taken_in_order_example = taken_in_order last_state.reach

linked_not_ended : ended (linked_state.last.pc 0) ≡ false
unfolding run init first_state
linked_not_ended = refl

no_deadlock_example :
    (j : ℕ) × (j < 2)
    × ((r : Ptr) → step 1 1 j r linked_state.last.mem (linked_state.last.pc j) ≢ waits)
no_deadlock_example = no_deadlock linked_state.reach 0 (omega arith) linked_not_ended

all_ended : (i : ℕ) → i < 2 → ended (last_state.last.pc i) ≡ true
unfolding run init first_state
all_ended zero h = refl
all_ended (suc zero) h = refl
all_ended (suc (suc i)) h = absurd (omega arith)

all_returned_example :
    (live : Ptr → Bool) × (end_of_main 3 last_state.last.mem ≡ some live)
    × ((a : Ptr) → live a ≡ false)
    × ((a : Ptr) → a ≢ null → last_state.last.mem.cells a ≡ none)
    × (last_state.last.mem.received ≡ last_state.last.mem.sent)
    × (length last_state.last.mem.received ≡ 1 * 1)
all_returned_example = all_returned last_state.reach all_ended (omega arith)
