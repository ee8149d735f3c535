-- ===== src/ThreadedQueue/Ending.antt =====
-- What is left in the queue and in the counters when every thread of ThreadedQueue.c has returned.
use mathlib.Core.Path.{subst}
use mathlib.Core.List.{append-nil}
use c_programming_language.Base.{
  ℕ, suc, ◌*◌, ◌≤◌, ◌<◌, ◌≡◌, ◌≢◌, refl, sym, ap, ◌∙◌, Bool, true, false, none, some, List, [], ◌∷◌,
  ◌++◌, map, ltb, if◌then◌else◌, arith, length, length-append,
}
use c_programming_language.Base.Threads.{count, total, total-constant, total-first}
use c_programming_language.Memory.{Ptr, null}
use c_programming_language.ThreadedQueue.{Shared, Pc, making, made_all, took_all}
use c_programming_language.ThreadedQueue.Chain.{Follows}
use c_programming_language.ThreadedQueue.Shape.{node_of, item_of, bit}
use c_programming_language.ThreadedQueue.Counts.{adds, removes, enters, leaves, made, Stopped}
use c_programming_language.ThreadedQueue.Invariant.{Inv}
use c_programming_language.ThreadedQueue.Progress.{ended}
use c_programming_language.ThreadedQueue.Destroy.{end_of_main, destroy_loop-all}

length-map : (f : Ptr → Ptr) (xs : List Ptr) → length (map f xs) ≡ length xs
length-map f [] = refl
length-map f (x ∷ xs) = ap suc (length-map f xs)

module _ {producers items n : ℕ} {m : Shared} {pc : ℕ → Pc} (v : Inv producers items n m pc) where
  open v use {rest, locks, shape, counts}

  module _ (over : (i : ℕ) → i < n → ended (pc i) ≡ true) (consumer : producers < n) where
    pub weights-zero : (w : Pc → ℕ) → w made_all ≡ 0 → w took_all ≡ 0 → total w n pc ≡ 0
    weights-zero w e d = omega (arith, total-constant w n pc 0 (λ i h. zero_at (pc i) (over i h)))
      where
        zero_at : (p : Pc) → ended p ≡ true → w p ≡ 0
        zero_at (making k) u = cc
        zero_at _ u = ground arith

    pub all_consumed : producers * items ≤ m.consumed
    all_consumed = at (pc producers) refl (counts.stopped producers)
      where
        at :
            (p : Pc)
            → pc producers ≡ p
            → Stopped (producers * items) m.consumed p
            → producers * items ≤ m.consumed
        at took_all e s = s
        at _ e s = ground (arith, over producers consumer, counts.roles producers)

    pub all_produced : m.produced ≡ producers * items
    all_produced =
        sym counts.made_counted
        ∙ total-first (made items) n pc producers items (omega arith)
            (λ i h. at i (pc i) refl (over i h))
      where
        at :
            (i : ℕ) (p : Pc)
            → pc i ≡ p
            → ended p ≡ true
            → made items p ≡ (if ltb i producers then items else 0)
        at i (making k) e u = cc
        at i _ e u = ground (arith, counts.roles i)

    pub none_left : rest ≡ []
    none_left = empty_of rest (
        omega (
          arith,
          all_consumed,
          all_produced,
          counts.produced_counted,
          counts.consumed_counted,
          ap length shape.ordered,
          length-append m.received (map m.value rest),
          weights-zero enters refl refl,
          weights-zero leaves refl refl,
          length-map m.value rest,
        ))
      where
        empty_of : (xs : List Ptr) → length xs ≡ 0 → xs ≡ []
        empty_of [] e = refl
        empty_of (x ∷ xs) e = cc

    size_zero : m.size ≡ 0
    size_zero = omega (
      arith,
      counts.size_range,
      counts.size_counted,
      weights-zero adds refl refl,
      weights-zero removes refl refl,
      ap length none_left,
    )

    only_dummy : (a : Ptr) → count a (m.head ∷ []) ≡ bit (m.live a)
    only_dummy a =
        omega (arith, shape.nodes a, weights-zero (node_of a) refl refl, ap (count a) none_left)

    dummy_last : m.next m.head ≡ null
    dummy_last = subst (Follows m.next m.head) none_left shape.chain

    pub main-releases :
        (live : Ptr → Bool) × (end_of_main 3 m ≡ some live) × ((a : Ptr) → live a ≡ false)
    unfolding end_of_main
    main-releases =
        let (live, run, gone) =
          destroy_loop-all 3 m.next m.live m.head [] (omega arith) shape.head_set dummy_last
            only_dummy in
        (live, rw size_zero run, gone)

    pub no_items : (a : Ptr) → a ≢ null → m.cells a ≡ none
    no_items a h = ground (
      arith,
      shape.items a h,
      weights-zero (item_of a) refl refl,
      ap (λ l. count a (map m.value l)) none_left,
    )

    pub all_taken : m.received ≡ m.sent
    all_taken =
        sym
          (shape.ordered ∙ ap (λ l. m.received ++ map m.value l) none_left ∙ append-nil m.received)

    pub as_many : length m.received ≡ producers * items
    as_many = omega (
      arith,
      ap length all_taken,
      counts.produced_counted,
      weights-zero enters refl refl,
      all_produced,
    )
