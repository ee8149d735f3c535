-- ===== src/ThreadPool/Correct.antt =====
-- What the queue of ThreadPool/server.c promises, for every number of workers and order of steps.
use native.Mathlib.Decide.{dec_lt}
use c_programming_language.Base.{
  ℕ, zero, suc, ◌+◌, ◌≤◌, ◌<◌, ◌≡◌, ◌≢◌, refl, true, Option, none, some, ◌++◌, arith,
}
use c_programming_language.Base.Threads.{total, total-constant, total-pos}
use c_programming_language.ThreadPool.{max_queue, Queue, Pc, accepting, accepted, idle, waits}
use c_programming_language.ThreadPool.Ring.{window}
use c_programming_language.ThreadPool.State.{
  step, System, Reach, in_mutex, reserves, delivers, claims, vacates, Inv, start_pc,
}
use c_programming_language.ThreadPool.Counts.{Reach-Inv}

-- In every state that the threads can reach, the ring has at most max_queue clients, and what was put
-- into it are, in order, the clients that were taken out and then those in the ring: no client is
-- overwritten, taken twice or lost.
pub clients_in_order :
    {n : ℕ} {s : System}
    → Reach n s
    → (s.queue.count ≤ max_queue)
      × (s.queue.sent
          ≡ s.queue.received ++ window s.queue.count s.queue.front s.queue.client_sockets)
clients_in_order reached = let v = Reach-Inv reached in (omega (arith, v.slots), v.ordered)

module _ {n : ℕ} {q : Queue} {pc : ℕ → Pc} (v : Inv n q pc) (client : Option ℕ) where
  -- The owner of the mutex does not wait.
  owner-ne-waits : (i : ℕ) (p : Pc) → pc i ≡ p → in_mutex p ≡ true → step client i q p ≢ waits
  unfolding step
  owner-ne-waits i accepting e h = cc
  owner-ne-waits i _ e h = ground (arith, v.roles i)

  -- Where the mutex is free, a thread waits only for a semaphore.
  step-ne-waits :
      (i : ℕ) (p : Pc)
      → q.mutex ≡ none
      → pc i ≡ p
      → ((fd : ℕ) → p ≡ accepted fd → 0 < q.sem_slots)
      → (p ≡ idle → 0 < q.sem_items)
      → step client i q p ≢ waits
  unfolding step
  step-ne-waits i accepting free e slot item = ground (arith, v.roles i)
  step-ne-waits i (accepted fd) free e slot item = ground (arith, v.roles i, slot fd refl)
  step-ne-waits i idle free e slot item = ground (arith, v.roles i, item refl)
  step-ne-waits i _ free e slot item = ground (arith, v.roles i)

module _ {n : ℕ} {q : Queue} {pc : ℕ → Pc} (v : Inv n q pc) where
  abbrev Awake : Type 0
  Awake = (i : ℕ) × (i < n) × ((client : Option ℕ) → step client i q (pc i) ≢ waits)

  owner-Awake : (j : ℕ) → q.mutex ≡ some j → Awake
  owner-Awake j e =
      let inside : in_mutex (pc j) ≡ true = ground (arith, v.owner j) in
      elim (dec_lt j n) [
        | yes h ↦ (j, h, λ c. owner-ne-waits v c j (pc j) refl inside)
        | no h ↦ absurd (let out = v.outside j (omega arith) in outer j (pc j) inside out)
      ]
    where
      outer : (k : ℕ) (p : Pc) → in_mutex p ≡ true → p ≡ start_pc k → ⊥
      outer zero p a b = cc
      outer (suc k) p a b = cc

  module _ (free : q.mutex ≡ none) where
    -- A thread that has a claim on a client, or has loaded one, does not wait.
    busy-Awake : (i : ℕ) → i < n → 0 < claims (pc i) + vacates (pc i) → Awake
    busy-Awake i h w = (
      i,
      h,
      λ c.
          step-ne-waits v c i (pc i) free refl (λ fd e. absurd (ground arith))
            (λ e. absurd (ground arith)),
    )

    -- Where main waits for a slot and no client is announced, a worker is busy.
    full-Awake : (fd : ℕ) → pc 0 ≡ accepted fd → q.sem_slots ≡ 0 → q.sem_items ≡ 0 → Awake
    full-Awake fd e s i = elim (dec_lt 0 (total claims n pc)) [
      | yes some_claim ↦
          let (k, b, w) = total-pos claims n pc some_claim in busy-Awake k b (omega arith)
      | no no_claim ↦
          let (k, b, w) = total-pos vacates n pc (
            omega (
              arith,
              v.slots,
              v.items,
              no_weight reserves no_reserve,
              no_weight delivers no_deliver,
            )) in
          busy-Awake k b (omega arith)
    ]
      where
        no_reserve : (k : ℕ) (p : Pc) → pc k ≡ p → reserves p ≡ 0
        no_reserve k accepting a = refl
        no_reserve k _ a = ground (arith, v.roles k)

        no_deliver : (k : ℕ) (p : Pc) → pc k ≡ p → delivers p ≡ 0
        no_deliver k accepting a = refl
        no_deliver k _ a = ground (arith, v.roles k)

        no_weight : (w : Pc → ℕ) → ((k : ℕ) (p : Pc) → pc k ≡ p → w p ≡ 0) → total w n pc ≡ 0
        no_weight w z = omega (arith, total-constant w n pc 0 (λ k b. z k (pc k) refl))

    -- Main, or the first worker, or a busy one.
    free-Awake : 2 ≤ n → Awake
    free-Awake h = elim (dec_lt 0 q.sem_slots) [
      | yes slot ↦ (
        0,
        omega arith,
        λ c.
            step-ne-waits v c 0 (pc 0) free refl (λ fd e. slot)
              (λ e. absurd (ground (arith, v.roles 0))),
      )
      | no no_slot ↦ elim (dec_lt 0 q.sem_items) [
        | yes item ↦ (
          1,
          omega arith,
          λ c.
              step-ne-waits v c 1 (pc 1) free refl (λ fd e. absurd (ground (arith, v.roles 1)))
                (λ e. item),
        )
        | no no_item ↦ main (pc 0) refl (omega arith) (omega arith)
      ]
    ]
      where
        main : (p : Pc) → pc 0 ≡ p → q.sem_slots ≡ 0 → q.sem_items ≡ 0 → Awake
        main (accepted fd) e s i = full-Awake fd e s i
        main _ e s i = (
          0,
          omega arith,
          λ c.
              step-ne-waits v c 0 (pc 0) free refl (λ fd d. absurd (ground arith))
                (λ d. absurd (ground (arith, v.roles 0))),
        )

-- In every state that main and at least one worker can reach, there is a thread that does not wait,
-- whatever accept returns: the semaphores and the mutex never hold up all threads.
pub pool_keeps_moving :
    {n : ℕ} {s : System}
    → Reach n s
    → 2 ≤ n
    → (i : ℕ) × (i < n) × ((client : Option ℕ) → step client i s.queue (s.pc i) ≢ waits)
pool_keeps_moving {n} {s} reached h = go s.queue.mutex refl
  where
    go :
        (o : Option ℕ)
        → s.queue.mutex ≡ o
        → (i : ℕ) × (i < n) × ((client : Option ℕ) → step client i s.queue (s.pc i) ≢ waits)
    go none e = free-Awake (Reach-Inv reached) e h
    go (some j) e = owner-Awake (Reach-Inv reached) j e
