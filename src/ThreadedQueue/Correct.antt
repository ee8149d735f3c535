-- ===== src/ThreadedQueue/Correct.antt =====
-- What ThreadedQueue.c promises, for every number of threads and every order of their steps.
use c_programming_language.Base.{
  ℕ, ◌*◌, ◌<◌, ◌≡◌, ◌≢◌, refl, Bool, true, false, none, some, List, ◌++◌, map, length,
}
use c_programming_language.Memory.{Ptr, null}
use c_programming_language.ThreadedQueue.{waits, crashes}
use c_programming_language.ThreadedQueue.Chain.{Follows}
use c_programming_language.ThreadedQueue.State.{step, System, Reach}
use c_programming_language.ThreadedQueue.Runs.{Reach-Inv}
use c_programming_language.ThreadedQueue.Progress.{ended, step-ne-crashes, some-Awake}
use c_programming_language.ThreadedQueue.Ending.{main-releases, no_items, all_taken, as_many}
use c_programming_language.ThreadedQueue.Destroy.{end_of_main}

-- In every state that the threads can reach, and whatever malloc returns, no thread reads, writes, locks
-- or frees memory that is not allocated.
pub no_crash :
    {producers items n : ℕ} {s : System}
    → Reach producers items n s
    → (i : ℕ) (r : Ptr) → i < n
    → step producers items i r s.mem (s.pc i) ≢ crashes
no_crash {producers} {items} {n} {s} reached i r below =
    let v = Reach-Inv reached in
    step-ne-crashes producers items n i v below r (s.pc i) refl (v.shape.knows i below)

-- In every state that the threads can reach, the values that went into the queue are, in order, those
-- that have been taken out and then those in the nodes behind the dummy: nothing is lost, and nothing
-- is taken twice or out of turn.
pub taken_in_order :
    {producers items n : ℕ} {s : System}
    → Reach producers items n s
    → (xs : List Ptr) × Follows s.mem.next s.mem.head xs
      × (s.mem.sent ≡ s.mem.received ++ map s.mem.value xs)
taken_in_order reached = let v = Reach-Inv reached in (v.rest, v.shape.chain, v.shape.ordered)

-- In every state that the threads can reach, if a thread has not returned, then there is a thread that
-- does not wait, whatever malloc returns.
pub no_deadlock :
    {producers items n : ℕ} {s : System}
    → Reach producers items n s
    → (i : ℕ) → i < n
    → ended (s.pc i) ≡ false
    → (j : ℕ) × (j < n) × ((r : Ptr) → step producers items j r s.mem (s.pc j) ≢ waits)
no_deadlock reached i below u = some-Awake (Reach-Inv reached) i below u

-- Where all threads have returned, one of them a consumer, main's assertion on the size holds and
-- fgq_destroy releases every node; no integer is allocated any more, every value that was put into the
-- queue has been taken, in that order, and they are as many as the producers had to make.
pub all_returned :
    {producers items n : ℕ} {s : System}
    → Reach producers items n s
    → ((i : ℕ) → i < n → ended (s.pc i) ≡ true)
    → producers < n
    → (live : Ptr → Bool) × (end_of_main 3 s.mem ≡ some live)
      × ((a : Ptr) → live a ≡ false)
      × ((a : Ptr) → a ≢ null → s.mem.cells a ≡ none)
      × (s.mem.received ≡ s.mem.sent)
      × (length s.mem.received ≡ producers * items)
all_returned reached over consumer =
    let v = Reach-Inv reached in
    let (live, run, gone) = main-releases v over consumer in
    (live, run, gone, no_items v over consumer, all_taken v over consumer, as_many v over consumer)
