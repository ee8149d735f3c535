-- ===== src/LruHeap.antt =====
-- MemoryManagementSystem.c: blocks of memory in a min-heap by their time of access. `ram` is an array
-- of blocks, whose fields `last_access` and `heap_index` are functions of the block's position; a
-- pointer to a block is that position, which is its `id` too. `heap` is a function from slots to
-- blocks. The payload is left out, and so are the prints and the exits after a failed `malloc`.
-- Loops on an index run on fuel, and `none` is fuel that ran out or an index out of bounds.
pub mod Valid
pub mod Down
pub mod Up
pub mod Steps
mod Tests
use c_programming_language.Base.{
  ℕ, zero, suc, ◌+◌, ◌-◌, ◌*◌, ◌/◌, ◌%◌, ◌^◌, Bool, true, false, ◌&&◌, Option, none, some, ◌>>=◌,
  ltb, leb, ◌==◌, if◌then◌else◌,
}
use c_programming_language.Base.Int.{ℤ, pos, negsuc}

pub record SimulationState : Type 0 where
  pub last_access : ℕ → ℕ
  pub heap_index : ℕ → ℕ
  pub heap : ℕ → ℕ
  pub heap_size : ℕ
  pub capacity : ℕ
  pub current_time : ℕ

-- an assignment to an array element, or to a field of a block
abbrev pub update : (ℕ → ℕ) → ℕ → ℕ → ℕ → ℕ
update f i v j = if i == j then v else f j

-- `heap[i]->last_access`
unfoldable pub key : SimulationState → ℕ → ℕ
key s i = s.last_access (s.heap i)

-- The second assignment to `heap_index` is the one that stays where `i` is `j`.
unfoldable pub swap_heap_nodes : SimulationState → ℕ → ℕ → SimulationState
swap_heap_nodes s i j =
    let heap' = update (update s.heap i (s.heap j)) j (s.heap i) in
    record s { heap = heap'; heap_index = update (update s.heap_index (heap' i) i) (heap' j) j }

-- `fuel` bounds the rounds. A slot past the capacity is out of bounds.
unfoldable pub heapify_up : ℕ → SimulationState → ℕ → Option SimulationState
heapify_up zero s index = none
heapify_up (suc fuel) s index =
    let parent = (index - 1) / 2 in
    let rest = heapify_up fuel (swap_heap_nodes s index parent) parent in
    if index == 0
    then some s
    else if leb s.capacity index
    then none
    else if ltb (key s index) (key s parent)
    then rest
    else some s

-- The slot of the least key among `index` and its children. A child is read where it is below
-- `heap_size`, and then so is `index`.
unfoldable pub smallest : SimulationState → ℕ → ℕ
smallest s index =
    let left = index * 2 + 1 in
    let right = index * 2 + 2 in
    let first = if ltb left s.heap_size && ltb (key s left) (key s index) then left else index in
    if ltb right s.heap_size && ltb (key s right) (key s first) then right else first

unfoldable pub heapify_down : ℕ → SimulationState → ℕ → Option SimulationState
heapify_down zero s index = none
heapify_down (suc fuel) s index =
    let rest = heapify_down fuel (swap_heap_nodes s index (smallest s index)) (smallest s index) in
    if smallest s index == index then some s else rest

-- `for (int i = state.capacity / 2 - 1; i >= 0; i--)`, with `k` for `i + 1`
unfoldable pub build_heap : ℕ → SimulationState → Option SimulationState
build_heap zero s = some s
build_heap (suc k) s = heapify_down (s.heap_size + 1) s k >>= build_heap k

-- `rand i` is the number drawn for block `i`.
unfoldable pub init_blocks : (ℕ → ℕ) → ℕ → SimulationState
init_blocks rand num_blocks = record {
  last_access = λ i. rand i % 1000;
  heap_index = λ i. i;
  heap = λ i. i;
  heap_size = num_blocks;
  capacity = num_blocks;
  current_time = 0;
}

unfoldable pub init_simulation : (ℕ → ℕ) → ℕ → Option SimulationState
init_simulation rand num_blocks = build_heap (num_blocks / 2) (init_blocks rand num_blocks)

-- `block` is a position in `ram`.
unfoldable pub update_block_access : SimulationState → ℕ → ℕ → Option SimulationState
update_block_access s block new_time =
    let old_time = s.last_access block in
    let s' = record s { last_access = update s.last_access block new_time } in
    if ltb old_time new_time
    then heapify_down (s.heap_size + 1) s' (s.heap_index block)
    else heapify_up (s.heap_size + 1) s' (s.heap_index block)

-- `none` is NULL
unfoldable pub peek_lru : SimulationState → Option ℕ
peek_lru s = if leb s.heap_size 0 then none else some (s.heap 0)

-- `r` is what `rand` returns.
unfoldable pub random_access_strategy : ℕ → SimulationState → ℤ
random_access_strategy r s = if s.heap_size == 0 then negsuc 0 else pos (r % s.heap_size)

-- the access to the block that a strategy has chosen
unfoldable pub access_slot : ℤ → SimulationState → Option SimulationState
access_slot (negsuc zero) s = some s
access_slot (negsuc (suc n)) s = none
access_slot (pos i) s =
    if ltb i s.capacity then update_block_access s (s.heap i) s.current_time else none

-- `current_time` is a `uint64_t`.
unfoldable pub simulation_step : (SimulationState → ℤ) → SimulationState → Option SimulationState
simulation_step find_next_block s =
    let s' = record s { current_time = (s.current_time + 1) % 2 ^ 64 } in
    access_slot (find_next_block s') s'
