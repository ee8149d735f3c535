-- ===== src/QueueAndStack/Moves.antt =====
-- queueandstack.c: its queue against the one of Queue.c, and the calls of `main`.
use c_programming_language.Base.{◌≡◌, ◌≢◌, refl, false, none, some, [], ◌∷◌, ◌==◌, arith}
use c_programming_language.Base.Int.{ℤ}
use c_programming_language.Memory.{Ptr, null, Store, done, fault, set_cell, load}
use c_programming_language.Memory.Chain.{Node, node, Cells, Chain, load-done, free-done}
use c_programming_language.LinkedList.{set_next}
use c_programming_language.LinkedList.Walk.{last_of}
use c_programming_language.LinkedQueue.{Queue, is_empty}
use c_programming_language.LinkedQueue.Fifo.{IsQueue}
use c_programming_language.QueueAndStack.{en_queue, de_queue_aliased}

set_next-fault : (p q : Ptr) (s : Store Node) → s p ≡ none → set_next p q s ≡ fault
unfolding set_next load
set_next-fault p q s e = ground (arith, e)

last_of-ne_null :
    (s : Store Node) (p : Ptr) (v : ℤ) (xs : Cells)
    → Chain s null ((p, v) ∷ xs)
    → last_of xs p ≢ null
last_of-ne_null s p v [] c = c.0
last_of-ne_null s p v ((q, w) ∷ xs) c = last_of-ne_null s q w xs c.3

-- On a queue, `enQueue` of this file, which tests both pointers, and that of Queue.c, which tests
-- the rear, do the same, whatever memory holds and `malloc` returns.
pub en_queue-same :
    (s : Store Node) (q : Queue) (fresh old : Ptr) (x : ℤ) (xs : Cells)
    → IsQueue s q xs
    → en_queue fresh old x q s ≡ c_programming_language.LinkedQueue.en_queue fresh old x q s
unfolding en_queue c_programming_language.LinkedQueue.en_queue
en_queue-same s q fresh old x [] is = rw (is.front, is.rear) refl
en_queue-same s q fresh old x ((p, v) ∷ xs) is =
    let front : (q.front == null) ≡ false = ground (arith, is.front, is.chain.0) in
    let rear : (q.rear == null) ≡ false =
      ground (arith, is.rear, last_of-ne_null s p v xs is.chain) in
    rw (front, rear) refl

-- On a queue of one node, which points to NULL, `main`'s form of the call takes the value, frees the node, sets the front to NULL and leaves the
-- rear at the freed node. Where `malloc` then returns another address, the next `enQueue` writes through
-- the rear, which is a fault.
pub en_queue-de_queue_aliased :
    (s : Store Node) (q : Queue) (p fresh old : Ptr) (v x : ℤ)
    → IsQueue s q ((p, v) ∷ [])
    → fresh ≢ null
    → fresh ≢ p
    → (de_queue_aliased q s ≡ done (v, record { front = null; rear = p }) (set_cell s p none))
      × (en_queue fresh old x (record { front = null; rear = p }) (set_cell s p none) ≡ fault)
unfolding de_queue_aliased en_queue
en_queue-de_queue_aliased s q p fresh old v x is h away =
    let (n, out, e, c) = is.chain in
    let some_room : (fresh == null) ≡ false = ground arith in
    let full : (p == null) ≡ false = ground arith in
    (
      rw (is.front, load-done p (node v null) s n e, free-done p (node v null) s n e, is.rear) refl,
      rw
          (
            some_room,
            full,
            set_next-fault p fresh (set_cell (set_cell s p none) fresh (some (node x old)))
                (ground arith),
          )
          refl,
    )
