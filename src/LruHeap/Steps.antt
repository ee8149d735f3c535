-- ===== src/LruHeap/Steps.antt =====
-- The heap of blocks: the start of the simulation, its steps, and the least recently used block.
use native.Mathlib.Decide.{dec_lt, ℕ_discrete}
use c_programming_language.Base.{
  ℕ, zero, suc, ◌+◌, ◌/◌, ◌%◌, ◌^◌, ◌≤◌, ◌<◌, ◌≡◌, ◌≢◌, refl, inl, true, Option, none, some, ltb,
  ◌==◌, if◌then◌else◌, lt→ltb, arith,
}
use c_programming_language.Base.Int.{ℤ, pos, negsuc}
use c_programming_language.LruHeap.{
  SimulationState, update, key, build_heap, init_blocks, init_simulation, update_block_access,
  peek_lru, random_access_strategy, access_slot, simulation_step,
}
use c_programming_language.LruHeap.Valid.{parent, IsLinked, IsHeapFrom, Sifted, Returns}
use c_programming_language.LruHeap.Down.{DownInv, heapify_down_sifts, build_heap_sifts}
use c_programming_language.LruHeap.Up.{UpInv, heapify_up_sifts, test_false}

-- A min-heap by the time of access, whose slots and blocks are linked.
pub record IsValid (s : SimulationState) : Type 0 where
  pub order : IsHeapFrom 0 s
  pub linked : IsLinked s

-- A valid state over the same blocks, with the given times and clock.
pub record Holds (n : ℕ) (times : ℕ → ℕ) (clock : ℕ) (s : SimulationState) : Type 0 where
  pub valid : IsValid s
  pub size : s.heap_size ≡ n
  pub access : s.last_access ≡ times
  pub time : s.current_time ≡ clock

Holds-of_Sifted :
    (s : SimulationState) (o : Option SimulationState)
    → Returns (Sifted 0 s) o
    → Returns (Holds s.heap_size s.last_access s.current_time) o
Holds-of_Sifted s none p = p
Holds-of_Sifted s (some t) p = record {
  valid = record { order = p.order; linked = p.linked };
  size = p.moved.size;
  access = p.moved.access;
  time = p.moved.clock;
}

-- For any number of blocks and any numbers that `rand` returns, `init_simulation` ends in a valid
-- heap of all the blocks with those times modulo 1000.
pub init_simulation_lem :
    (rand : ℕ → ℕ) (n : ℕ) → Returns (Holds n (λ i. rand i % 1000) 0) (init_simulation rand n)
unfolding init_simulation init_blocks
init_simulation_lem rand n =
    let s = init_blocks rand n in
    Holds-of_Sifted s (build_heap (n / 2) s) (
      build_heap_sifts (n / 2) s (λ c p q r. absurd (omega arith))
        (record { full = refl; slots = λ i h. (h, refl); blocks = λ b h. (h, refl) }) (omega arith))

module _ (s : SimulationState) (v : IsValid s) (b t : ℕ) (hb : b < s.heap_size) where
  -- the state after the assignment to the block's time
  abbrev stamped : SimulationState
  stamped = record s { last_access = update s.last_access b t }

  key-stamped :
      (c : ℕ) → c < s.heap_size → key stamped c ≡ (if s.heap_index b == c then t else key s c)
  unfolding key
  key-stamped c h = ground (arith, v.linked.slots c, v.linked.blocks b)

  key-block : key s (s.heap_index b) ≡ s.last_access b
  unfolding key
  key-block = ground (arith, v.linked.blocks b)

  abbrev slot : ℕ
  slot = s.heap_index b

  stamped-IsLinked : IsLinked stamped
  stamped-IsLinked = record {
    full = v.linked.full;
    slots = v.linked.slots;
    blocks = v.linked.blocks;
  }

  stamped-DownInv : s.last_access b < t → DownInv 0 stamped slot
  stamped-DownInv later = record {
    edges =
        λ c p q r n. ground (arith, key-stamped c, key-stamped (parent c), v.order c, key-block);
    bridged = λ c p q r z u. ground (
      arith,
      key-stamped c,
      key-stamped (parent slot),
      v.order c,
      v.order slot,
      key-block,
      (v.linked.blocks b hb).0,
    );
    linked = stamped-IsLinked;
    inside = inl (v.linked.blocks b hb).0;
  }

  stamped-UpInv : t ≤ s.last_access b → UpInv stamped slot
  stamped-UpInv earlier = record {
    edges = λ c p q n. ground (arith, key-stamped c, key-stamped (parent c), v.order c, key-block);
    bridged = λ c p q r z u. ground (
      arith,
      key-stamped c,
      key-stamped (parent slot),
      v.order c,
      v.order slot,
      key-block,
      (v.linked.blocks b hb).0,
    );
    linked = stamped-IsLinked;
    inside = (v.linked.blocks b hb).0;
  }

  -- In a valid state `update_block_access` ends in bounds, in a valid state of the same size in which
  -- the block has the new time and every other block its old one.
  pub update_block_access_lem :
      Returns
        (Holds s.heap_size (update s.last_access b t) s.current_time)
        (update_block_access s b t)
  unfolding update_block_access
  update_block_access_lem = elim (dec_lt (s.last_access b) t) [
    | yes later ↦ rw (lt→ltb _ _ later) (
        Holds-of_Sifted stamped _ (
          heapify_down_sifts (s.heap_size + 1) 0 stamped slot (omega arith) (omega arith)
            (stamped-DownInv later)))
    | no earlier ↦ rw (test_false (s.last_access b) t (omega arith)) (
        Holds-of_Sifted stamped _ (
          heapify_up_sifts (s.heap_size + 1) stamped slot (omega (arith, v.linked.blocks b hb))
            (stamped-UpInv (omega arith))))
  ]

root_least :
    (k : ℕ) (s : SimulationState) (i : ℕ)
    → IsHeapFrom 0 s
    → i < k
    → i < s.heap_size
    → key s 0 ≤ key s i
root_least zero s i h f p = absurd (omega arith)
root_least (suc k) s i h f p = ground (arith, h i, root_least k s (parent i) h)

-- In a valid state with blocks, `peek_lru` returns a block whose time of access is the least of all.
pub peek_lru_least :
    (s : SimulationState)
    → IsValid s
    → 0 < s.heap_size
    → (b : ℕ) × (peek_lru s ≡ some b)
      × (b < s.heap_size)
      × ((c : ℕ) → c < s.heap_size → s.last_access b ≤ s.last_access c)
unfolding peek_lru key
peek_lru_least s v h = (
  s.heap 0,
  ground arith,
  (v.linked.slots 0 h).0,
  λ c p.
      let (inside, back) = v.linked.blocks c p in
      ground (
        arith,
        root_least (suc (s.heap_index c)) s (s.heap_index c) v.order (omega arith) inside,
        back,
      ),
)

-- the state in which a step asks its strategy
abbrev pub ticked : SimulationState → SimulationState
ticked s = record s { current_time = (s.current_time + 1) % 2 ^ 64 }

ticked-IsValid : (s : SimulationState) → IsValid s → IsValid (ticked s)
unfolding key
ticked-IsValid s v = record {
  order = v.order;
  linked = record { full = v.linked.full; slots = v.linked.slots; blocks = v.linked.blocks };
}

-- A step whose strategy chooses slot `i` of a valid heap ends in bounds, in a valid state: the clock
-- has advanced, modulo 2^64, and the block in that slot has the new time.
pub simulation_step_lem :
    (find : SimulationState → ℤ) (s : SimulationState) (i : ℕ)
    → IsValid s
    → find (ticked s) ≡ pos i
    → i < s.heap_size
    → Returns
        (Holds s.heap_size
          (update s.last_access (s.heap i) (ticked s).current_time)
          (ticked s).current_time)
        (simulation_step find s)
unfolding simulation_step access_slot
simulation_step_lem find s i v e h =
    let room : ltb i s.capacity ≡ true = ground (arith, v.linked.full) in
    rw (e, access_slot, room)
      (update_block_access_lem (ticked s) (ticked-IsValid s v) (s.heap i) (ticked s).current_time
        (v.linked.slots i h).0)

random-empty :
    (r : ℕ) (s : SimulationState) → s.heap_size ≡ 0 → random_access_strategy r (ticked s) ≡ negsuc 0
unfolding random_access_strategy
random-empty r s e = ground arith

random-some :
    (r : ℕ) (s : SimulationState)
    → s.heap_size ≢ 0
    → random_access_strategy r (ticked s) ≡ pos (r % s.heap_size)
unfolding random_access_strategy
random-some r s n = ground arith

forget :
    (n clock : ℕ) (times : ℕ → ℕ) (o : Option SimulationState)
    → Returns (Holds n times clock) o
    → Returns (λ s'. IsValid s' × (s'.heap_size ≡ n) × (s'.current_time ≡ clock)) o
forget n clock times none p = p
forget n clock times (some s) p = (p.valid, p.size, p.time)

-- With any number from `rand`, a step with the random strategy keeps a valid state valid, its size
-- and the advance of the clock included; with no blocks only the clock advances.
pub simulation_step_random :
    (r : ℕ) (s : SimulationState)
    → IsValid s
    → Returns
        (λ s'.
          IsValid s' × (s'.heap_size ≡ s.heap_size) × (s'.current_time ≡ (ticked s).current_time))
        (simulation_step (random_access_strategy r) s)
unfolding simulation_step access_slot
simulation_step_random r s v = elim (ℕ_discrete s.heap_size 0) [
  | yes empty ↦ rw (random-empty r s empty, access_slot) (ticked-IsValid s v, refl, refl)
  | no blocks ↦
      let inside : r % s.heap_size < s.heap_size = omega arith in
      forget s.heap_size (ticked s).current_time _ (simulation_step (random_access_strategy r) s) (
        simulation_step_lem (random_access_strategy r) s (r % s.heap_size) v
          (random-some r s blocks) inside)
]
