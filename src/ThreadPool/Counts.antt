-- ===== src/ThreadPool/Counts.antt =====
-- A step of one thread keeps the invariant of the queue of clients.
use native.Mathlib.Decide.{ℕ_discrete}
use native.Mathlib.Numerals.{add-one}
use mathlib.Core.List.{append_assoc}
use c_programming_language.Base.{
  ℕ, zero, suc, ◌+◌, ◌-◌, ◌%◌, ◌<◌, ◌≡◌, refl, sym, ap, ◌∙◌, Option, [], ◌∷◌, ◌++◌, ◌==◌, update,
  arith,
}
use c_programming_language.Base.Threads.{total, total-update, le-total, total-constant}
use c_programming_language.ThreadPool.{
  max_queue, Queue, Pc, accepting, in_lock, idle, out_lock, moves, queue_init,
}
use c_programming_language.ThreadPool.Ring.{window, window-snoc}
use c_programming_language.ThreadPool.State.{
  step, System, Reach, start, later, After, After-moves, owned_by, in_mutex, reserves, delivers,
  claims, vacates, accepts, Inv, start_pc,
}

module _ (client : Option ℕ) (i n : ℕ) {q : Queue} {pc : ℕ → Pc} (below : i < n)
    (v : Inv n q pc) where
  abbrev Keeps : (Queue → Pc → Type 0) → Pc → Type 0
  Keeps P p = pc i ≡ p → After P (step client i q p)

  -- The thread that stores a client finds room, and the thread that loads one finds it.
  room : 0 < reserves (pc i) → q.count < max_queue
  room h = omega (arith, v.slots, le-total reserves n pc i below)

  some_client : 0 < claims (pc i) → 0 < q.count
  some_client h = omega (arith, v.items, le-total claims n pc i below)

  step-owner :
      (j : ℕ) (p : Pc) → Keeps (λ q' p'. owned_by q'.mutex j ≡ in_mutex (update pc i p' j)) p
  unfolding step
  step-owner j accepting e = ground (arith, v.owner i, v.owner j)
  step-owner j _ e = ground (arith, v.owner i, v.owner j)

  step-front_range : (p : Pc) → Keeps (λ q' p'. q'.front < max_queue) p
  unfolding step
  step-front_range accepting e = ground (arith, v.front_range)
  step-front_range _ e = ground (arith, v.front_range)

  step-rear_at : (p : Pc) → Keeps (λ q' p'. q'.rear ≡ (q'.front + q'.count) % max_queue) p
  unfolding step
  step-rear_at accepting e = ground (arith, v.rear_at)
  step-rear_at out_lock e = ground (arith, v.rear_at, some_client (ground arith))
  step-rear_at _ e = ground (arith, v.rear_at)

  step-slots :
      (p : Pc)
      → Keeps
          (λ q' p'.
            q'.sem_slots + reserves p' + q'.count + vacates p'
            ≡ q.sem_slots + reserves p + q.count + vacates p)
          p
  unfolding step
  step-slots accepting e = ground arith
  step-slots out_lock e = ground (arith, some_client (ground arith))
  step-slots _ e = ground arith

  step-items :
      (p : Pc)
      → Keeps
          (λ q' p'.
            q'.sem_items + claims p' + delivers p' + q.count
            ≡ q.sem_items + claims p + delivers p + q'.count)
          p
  unfolding step
  step-items accepting e = ground arith
  step-items out_lock e = ground (arith, some_client (ground arith))
  step-items _ e = ground arith

  step-ordered :
      (p : Pc)
      → Keeps (λ q' p'. q'.sent ≡ q'.received ++ window q'.count q'.front q'.client_sockets) p
  unfolding step
  step-ordered accepting e = ground (arith, v.ordered)
  step-ordered (in_lock fd) e =
      let longer : window (suc q.count) q.front (update q.client_sockets q.rear fd)
          ≡ window q.count q.front q.client_sockets ++ fd ∷ [] =
        window-snoc q.count q.front q.rear fd q.client_sockets v.front_range (room (ground arith))
          v.rear_at in
      let grown : q.sent ++ fd ∷ []
          ≡ q.received ++ window (suc q.count) q.front (update q.client_sockets q.rear fd) =
        ap (λ l. l ++ fd ∷ []) v.ordered
        ∙ append_assoc q.received (window q.count q.front q.client_sockets) (fd ∷ [])
        ∙ ap (λ l. q.received ++ l) (sym longer) in
      ground (arith, add-one q.count)
  step-ordered out_lock e =
      let full : q.count ≡ suc (q.count - 1) = omega (arith, some_client (ground arith)) in
      let taken : q.sent
          ≡ (q.received ++ q.client_sockets q.front ∷ [])
            ++ window (q.count - 1) ((q.front + 1) % max_queue) q.client_sockets =
        v.ordered
        ∙ ap (λ k. q.received ++ window k q.front q.client_sockets) full
        ∙ sym (
            append_assoc q.received (q.client_sockets q.front ∷ [])
              (window (q.count - 1) ((q.front + 1) % max_queue) q.client_sockets)) in
      ground arith
  step-ordered _ e = ground (arith, v.ordered)

  step-roles : (p : Pc) → Keeps (λ q' p'. accepts p' ≡ (i == 0)) p
  unfolding step
  step-roles accepting e = ground (arith, v.roles i)
  step-roles _ e = ground (arith, v.roles i)

module _ (client : Option ℕ) (i n : ℕ) {q q' : Queue} {pc : ℕ → Pc} {p' : Pc} (below : i < n)
    (v : Inv n q pc) (e : step client i q (pc i) ≡ moves q' p') where
  abbrev pc' : ℕ → Pc
  pc' = update pc i p'

  made : (P : Queue → Pc → Type 0) → After P (step client i q (pc i)) → P q' p'
  made P a = After-moves P (step client i q (pc i)) e a

  Inv-roles : (j : ℕ) → accepts (pc' j) ≡ (j == 0)
  Inv-roles j = elim (ℕ_discrete i j) [
    | yes same ↦
        let at : pc' j ≡ p' = ground arith in
        rw at (made _ (step-roles client i n below v (pc i) refl) ∙ ap (λ k. k == 0) same)
    | no other ↦ let at : pc' j ≡ pc j = ground arith in rw at (v.roles j)
  ]

  -- A step of one thread keeps the invariant.
  pub step-Inv : Inv n q' pc'
  step-Inv = record {
    owner = λ j. made _ (step-owner client i n below v j (pc i) refl);
    front_range = made _ (step-front_range client i n below v (pc i) refl);
    rear_at = made _ (step-rear_at client i n below v (pc i) refl);
    slots = omega (
      arith,
      v.slots,
      total-update reserves pc i p' n below,
      total-update vacates pc i p' n below,
      made _ (step-slots client i n below v (pc i) refl),
    );
    items = omega (
      arith,
      v.items,
      total-update claims pc i p' n below,
      total-update delivers pc i p' n below,
      made _ (step-items client i n below v (pc i) refl),
    );
    ordered = made _ (step-ordered client i n below v (pc i) refl);
    roles = Inv-roles;
    outside = λ j h. ground (arith, v.outside j h);
  }

start-zero : (w : Pc → ℕ) → w accepting ≡ 0 → w idle ≡ 0 → (n : ℕ) → total w n start_pc ≡ 0
start-zero w e d n = omega (arith, total-constant w n start_pc 0 (λ i h. at i))
  where
    at : (i : ℕ) → w (start_pc i) ≡ 0
    at zero = e
    at (suc i) = d

start-Inv : (n : ℕ) (garbage : ℕ → ℕ) → Inv n (queue_init garbage) start_pc
start-Inv n garbage = record {
  owner = elim [ zero ↦ refl | suc i ↦ refl ];
  front_range = omega arith;
  rear_at = refl;
  slots = omega (arith, start-zero reserves refl refl n, start-zero vacates refl refl n);
  items = omega (arith, start-zero claims refl refl n, start-zero delivers refl refl n);
  ordered = refl;
  roles = elim [ zero ↦ refl | suc i ↦ ground arith ];
  outside = λ i h. refl;
}

-- The invariant holds in every state that the threads can reach.
pub Reach-Inv : {n : ℕ} {s : System} → Reach n s → Inv n s.queue s.pc
Reach-Inv {n} (start garbage) = start-Inv n garbage
Reach-Inv {n} (later i client r h e) = step-Inv client i n h (Reach-Inv r) e
