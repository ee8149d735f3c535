-- ===== src/ThreadedQueue/Counts.antt =====
-- The counters of ThreadedQueue.c against the values that went into the queue and came out.
use c_programming_language.Base.{
  ℕ, ◌+◌, ◌*◌, ◌%◌, ◌≤◌, ◌<◌, ◌≡◌, ap, Bool, true, false, List, [], ◌∷◌, arith, ltb, ◌==◌,
  if◌then◌else◌, length, length-append,
}
use c_programming_language.Base.Threads.{total}
use c_programming_language.Memory.{Ptr, null}
use c_programming_language.ThreadedQueue.{
  Shared, Pc, making, has_item, has_node, tail_held, linked, tail_set, tail_free, counted_in,
  made_all, taken, next_free, old_free, freed, counted_out, returned, disposed, took_all, size_mod,
  next_held,
}
use c_programming_language.ThreadedQueue.State.{step, After, start_pc}
use c_programming_language.ThreadedQueue.Facts.{next_queued}
use c_programming_language.ThreadedQueue.Shape.{Knows, Shape, rest_after}

-- a thread that has put a value into the queue and not counted it in `size`
abbrev pub adds : Pc → ℕ
adds (linked k p) = 1
adds (tail_set k) = 1
adds (tail_free k) = 1
adds pc = 0

-- a thread that has taken a value from the queue and not counted it in `size`
abbrev pub removes : Pc → ℕ
removes (taken old nx v) = 1
removes (next_free old v) = 1
removes (old_free old v) = 1
removes (freed v) = 1
removes pc = 0

-- a thread that has put a value into the queue and not counted it in `produced_total`
abbrev pub enters : Pc → ℕ
enters (linked k p) = 1
enters (tail_set k) = 1
enters (tail_free k) = 1
enters (counted_in k) = 1
enters pc = 0

-- a thread that has taken a value from the queue and not counted it in `consumed_total`
abbrev pub leaves : Pc → ℕ
leaves (taken old nx v) = 1
leaves (next_free old v) = 1
leaves (old_free old v) = 1
leaves (freed v) = 1
leaves (counted_out v) = 1
leaves (returned v) = if v == null then 0 else 1
leaves disposed = 1
leaves pc = 0

-- the values that a producer has put into the queue and counted
abbrev pub made : ℕ → Pc → ℕ
made items (making k) = k
made items (has_item k a) = k
made items (has_node k p a) = k
made items (tail_held k p a) = k
made items (linked k p) = k
made items (tail_set k) = k
made items (tail_free k) = k
made items (counted_in k) = k
made items made_all = items
made items pc = 0

abbrev pub Within : ℕ → Pc → Type 0
Within items (making k) = k ≤ items
Within items (has_item k a) = k < items
Within items (has_node k p a) = k < items
Within items (tail_held k p a) = k < items
Within items (linked k p) = k < items
Within items (tail_set k) = k < items
Within items (tail_free k) = k < items
Within items (counted_in k) = k < items
Within items pc = Unit

-- A consumer has left its loop only where the values were all consumed.
abbrev pub Stopped : ℕ → ℕ → Pc → Type 0
Stopped total consumed took_all = total ≤ consumed
Stopped total consumed pc = Unit

-- whether the place is one of producer_thread
abbrev pub produces : Pc → Bool
produces (making k) = true
produces (has_item k a) = true
produces (has_node k p a) = true
produces (tail_held k p a) = true
produces (linked k p) = true
produces (tail_set k) = true
produces (tail_free k) = true
produces (counted_in k) = true
produces made_all = true
produces pc = false

pub record Counts (producers items n : ℕ) (m : Shared) (pc : ℕ → Pc) (rest : List Ptr)
    : Type 0 where
  pub size_range : m.size < size_mod
  pub size_counted :
      (m.size + total adds n pc) % size_mod ≡ (length rest + total removes n pc) % size_mod
  pub produced_counted : m.produced + total enters n pc ≡ length m.sent
  pub consumed_counted : m.consumed + total leaves n pc ≡ length m.received
  pub made_counted : total (made items) n pc ≡ m.produced
  pub within : (i : ℕ) → Within items (pc i)
  pub roles : (i : ℕ) → produces (pc i) ≡ ltb i producers
  pub outside : (i : ℕ) → n ≤ i → pc i ≡ start_pc producers i
  pub stopped : (i : ℕ) → Stopped (producers * items) m.consumed (pc i)

pub Stopped-mono : (t c c' : ℕ) (p : Pc) → c ≤ c' → Stopped t c p → Stopped t c' p
Stopped-mono t c c' (making k) h s = tt
Stopped-mono t c c' p h s = ground arith

module _ (producers items i : ℕ) (r : Ptr) {n : ℕ} {m : Shared} {pc : ℕ → Pc} {rest : List Ptr}
    (below : i < n) (s : Shape n m pc rest) (c : Counts producers items n m pc rest) where
  abbrev pub Counted : (Shared → Pc → List Ptr → Type 0) → Pc → Type 0
  Counted P p =
      (pc i ≡ p) × Knows m.next m.value m.head m.tail rest p
      → After (λ m' p'. P m' p' (rest_after p rest)) (step producers items i r m p)

  pub step-size_range : (p : Pc) → Counted (λ m' p' rest'. m'.size < size_mod) p
  unfolding step
  step-size_range (making k) e = ground (arith, c.size_range)
  step-size_range _ e = ground (arith, c.size_range)

  -- The size changes as what is counted for it does.
  pub step-size :
      (p : Pc)
      → Counted
          (λ m' p' rest'.
            (m'.size + adds p' + length rest + removes p) % size_mod
            ≡ (m.size + adds p + length rest' + removes p') % size_mod)
          p
  unfolding step
  step-size (making k) e = ground arith
  step-size (tail_held k p a) e = ground (arith, length-append rest (p ∷ []))
  step-size (next_held old nx) e = ground (arith, ap length (next_queued s nx e.1.1 e.1.2).0)
  step-size (freed v) e = ground (arith, c.size_range)
  step-size _ e = ground arith

  pub step-produced :
      (p : Pc)
      → Counted
          (λ m' p' rest'.
            m'.produced + enters p' + length m.sent ≡ m.produced + enters p + length m'.sent)
          p
  unfolding step
  step-produced (tail_held k p a) e = ground (arith, length-append m.sent (a ∷ []))
  step-produced _ e = ground arith

  pub step-consumed :
      (p : Pc)
      → Counted
          (λ m' p' rest'.
            m'.consumed + leaves p' + length m.received
            ≡ m.consumed + leaves p + length m'.received)
          p
  unfolding step
  step-consumed (next_held old nx) e = ground (arith, length-append m.received (m.value nx ∷ []))
  step-consumed (returned v) e = ground arith
  step-consumed _ e = ground arith

  pub step-made :
      (p : Pc) → Counted (λ m' p' rest'. made items p' + m.produced ≡ made items p + m'.produced) p
  unfolding step
  step-made (making k) e = ground (arith, c.within i)
  step-made _ e = ground arith

  pub step-Within : (p : Pc) → Counted (λ m' p' rest'. Within items p') p
  unfolding step
  step-Within (making k) e = ground (arith, c.within i)
  step-Within _ e = ground (arith, c.within i)

  pub step-roles : (p : Pc) → Counted (λ m' p' rest'. produces p' ≡ ltb i producers) p
  unfolding step
  step-roles (making k) e = ground (arith, c.roles i)
  step-roles _ e = ground (arith, c.roles i)

  pub step-Stopped :
      (p : Pc) → Counted (λ m' p' rest'. Stopped (producers * items) m'.consumed p') p
  unfolding step
  step-Stopped (making k) e = ground arith
  step-Stopped _ e = ground arith

  pub step-consumed_mono : (p : Pc) → Counted (λ m' p' rest'. m.consumed ≤ m'.consumed) p
  unfolding step
  step-consumed_mono (making k) e = ground arith
  step-consumed_mono _ e = ground arith
