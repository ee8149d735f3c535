-- ===== src/LinkedQueue/Fifo.antt =====
-- Queue.c: values leave the queue in the order in which they came.
use mathlib.Core.Path.{subst}
use c_programming_language.Base.{◌≡◌, ◌≢◌, refl, sym, ◌∙◌, false, none, some, [], ◌∷◌, ◌==◌, arith}
use c_programming_language.Base.Int.{ℤ}
use c_programming_language.Memory.{Ptr, null, Store, Run, fault, Ends, set_cell, load, ◌>>=◌}
use c_programming_language.Memory.Chain.{
  Node, node, Cells, first, Chain, load-done, free-done, Chain-set_cell,
}
use c_programming_language.LinkedList.Walk.{last_of, last_of-append, Chain-last}
use c_programming_language.LinkedList.Back.{
  snoc, snoc_view, extended-Chain, set_next-extended, first-snoc,
}
use c_programming_language.LinkedQueue.{Queue, init, en_queue, de_queue}

-- The nodes from the front to the rear; the last one points to `stop`.
pub record Queued (s : Store Node) (stop : Ptr) (q : Queue) (xs : Cells) : Type 0 where
  pub front : q.front ≡ first xs null
  pub rear : q.rear ≡ last_of xs null
  pub chain : Chain s stop xs

abbrev pub IsQueue : Store Node → Queue → Cells → Type 0
IsQueue s = Queued s null

abbrev Added : Cells → (fresh old : Ptr) → ℤ → Queue → Store Node → Type 0
Added xs fresh old x r t = Queued t old r (snoc xs fresh x)

en_queue-snoc :
    (s : Store Node) (stop : Ptr) (q : Queue) (p fresh old : Ptr) (v x : ℤ) (xs : Cells)
    → Queued s stop q (snoc xs p v)
    → fresh ≢ null
    → s fresh ≡ none
    → Ends (Added (snoc xs p v) fresh old x) (en_queue fresh old x q s)
unfolding en_queue
en_queue-snoc s stop q p fresh old v x xs is h unused =
    let (n, out, e, front) = Chain-last s stop p v xs is.chain in
    let some_room : (fresh == null) ≡ false = ground arith in
    let full : (p == null) ≡ false = ground arith in
    rw
      (
        some_room,
        is.rear,
        last_of-append xs p null v,
        full,
        set_next-extended s p fresh stop old v x xs is.chain h unused,
      )
      (record {
        front = is.front ∙ sym (first-snoc xs p fresh v x);
        rear = sym (last_of-append (snoc xs p v) fresh null x);
        chain = extended-Chain s p fresh stop old v x xs is.chain h unused;
      })

-- Where memory is left, `enQueue` puts the value behind the last one, wherever that pointed to, and
-- the new last node points to what malloc left in it.
pub en_queue_lem :
    (s : Store Node) (stop : Ptr) (q : Queue) (fresh old : Ptr) (x : ℤ) (xs : Cells)
    → Queued s stop q xs
    → fresh ≢ null
    → s fresh ≡ none
    → Ends (λ r t. Queued t old r (snoc xs fresh x)) (en_queue fresh old x q s)
unfolding en_queue
en_queue_lem s stop q fresh old x [] is h unused =
    let some_room : (fresh == null) ≡ false = ground arith in
    rw (some_room, is.rear)
      (record { front = refl; rear = refl; chain = (h, refl, ground arith, tt) })
en_queue_lem s stop q fresh old x (c ∷ xs) is h unused =
    let (ys, p, v, e) = snoc_view c xs in
    subst (λ z. Ends (Added z fresh old x) (en_queue fresh old x q s)) (sym e)
      (en_queue-snoc s stop q p fresh old v x ys (subst (Queued s stop q) e is) h unused)

-- How `deQueue` ends.
abbrev pub Taken : Store Node → Cells → Run Node (ℤ × Queue) → Type 0
Taken s [] r = r ≡ fault
Taken s ((p, v) ∷ xs) r = Ends (λ a t. (a.0 ≡ v) × IsQueue t a.1 xs × (t ≡ set_cell s p none)) r

-- `deQueue` takes the first value, frees its node alone and leaves the other values in order. It
-- reads through NULL if the queue is empty.
pub de_queue_lem :
    (s : Store Node) (q : Queue) (xs : Cells) → IsQueue s q xs → Taken s xs (de_queue q s)
unfolding de_queue load
de_queue_lem s q [] is = rw (is.front) refl
de_queue_lem s q ((p, v) ∷ []) is =
    let (n, out, e, c) = is.chain in
    rw (is.front, load-done p (node v null) s n e, free-done p (node v null) s n e)
      (refl, record { front = refl; rear = refl; chain = tt }, refl)
de_queue_lem s q ((p, v) ∷ (r, w) ∷ xs) is =
    let (n, out, e, c) = is.chain in
    let more : (r == null) ≡ false = ground (arith, c.0) in
    rw (is.front, load-done p (node v r) s n e, free-done p (node v r) s n e, more)
      (
        refl,
        record {
          front = refl;
          rear = is.rear;
          chain = Chain-set_cell s null p none ((r, w) ∷ xs) out c;
        },
        refl,
      )

-- Where `malloc` leaves another pointer than NULL in the only node of a queue, the queue has that
-- pointer as its front after `deQueue`, and the freed node as its rear.
pub de_queue-uninitialised :
    (s : Store Node) (fresh old : Ptr) (x : ℤ)
    → fresh ≢ null
    → old ≢ null
    → Ends
        (λ a t. (a ≡ (x, record { front = old; rear = fresh })) × (t fresh ≡ none))
        ((en_queue fresh old x init >>= de_queue) s)
unfolding en_queue de_queue init
de_queue-uninitialised s fresh old x h garbage =
    let some_room : (fresh == null) ≡ false = ground arith in
    let more : (old == null) ≡ false = ground arith in
    let t = set_cell s fresh (some (node x old)) in
    rw
      (
        some_room,
        load-done fresh (node x old) t h (ground arith),
        free-done fresh (node x old) t h (ground arith),
        more,
      )
      (refl, ground arith)
