-- ===== src/LruHeap/Tests.antt =====
-- The heap of blocks: runs, and the theorems at concrete states.
use c_programming_language.Base.{
  ℕ, ◌*◌, ◌%◌, ◌≤◌, ◌<◌, ◌≡◌, refl, some, ◌>>=◌, arith, if◌then◌else◌, ◌==◌,
}
use c_programming_language.LruHeap.{
  SimulationState, update, key, swap_heap_nodes, smallest, heapify_down, build_heap, init_blocks,
  init_simulation, update_block_access, peek_lru, random_access_strategy, access_slot,
  simulation_step,
}
use c_programming_language.LruHeap.Valid.{Returns}
use c_programming_language.LruHeap.Steps.{
  IsValid, Holds, init_simulation_lem, update_block_access_lem, peek_lru_least,
  simulation_step_random,
}

-- five blocks with the times 40, 30, 20, 10, 0
abbrev rand : ℕ → ℕ
rand i =
    if i == 0 then 40 else if i == 1 then 30 else if i == 2 then 20 else if i == 3 then 10 else 0

init_lru : (init_simulation rand 5 >>= peek_lru) ≡ some 4
unfolding init_simulation init_blocks build_heap heapify_down smallest swap_heap_nodes key peek_lru
init_lru = refl

-- three blocks in order
abbrev sample : SimulationState
sample = record {
  last_access = λ b. b * 10;
  heap_index = λ b. b;
  heap = λ i. i;
  heap_size = 3;
  capacity = 3;
  current_time = 25;
}

sample-IsValid : IsValid sample
unfolding key
sample-IsValid = record {
  order = λ c p q r. ground arith;
  linked = record { full = refl; slots = λ i h. (h, refl); blocks = λ b h. (h, refl) };
}

init_simulation_lem_example : Returns (Holds 5 (λ i. rand i % 1000) 0) (init_simulation rand 5)
init_simulation_lem_example = init_simulation_lem rand 5

update_block_access_lem_example :
    Returns (Holds 3 (update sample.last_access 0 26) 25) (update_block_access sample 0 26)
update_block_access_lem_example = update_block_access_lem sample sample-IsValid 0 26 (omega arith)

peek_lru_least_example :
    (b : ℕ) × (peek_lru sample ≡ some b)
    × (b < 3)
    × ((c : ℕ) → c < 3 → sample.last_access b ≤ sample.last_access c)
peek_lru_least_example = peek_lru_least sample sample-IsValid (omega arith)

simulation_step_random_example :
    Returns
      (λ s'. IsValid s' × (s'.heap_size ≡ 3) × (s'.current_time ≡ 26))
      (simulation_step (random_access_strategy 7) sample)
simulation_step_random_example = simulation_step_random 7 sample sample-IsValid

-- the least recently used block after an access to block 0
step_lru : (simulation_step (random_access_strategy 0) sample >>= peek_lru) ≡ some 1
unfolding simulation_step access_slot random_access_strategy update_block_access heapify_down
    smallest swap_heap_nodes key peek_lru
step_lru = refl
