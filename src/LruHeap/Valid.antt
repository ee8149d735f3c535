-- ===== src/LruHeap/Valid.antt =====
-- The heap of blocks: the links between blocks and slots, the heap order, and what a swap does.
use c_programming_language.Base.{
  ℕ, ◌-◌, ◌/◌, ◌≤◌, ◌<◌, ◌≡◌, refl, ◌∙◌, none, some, Option, ◌==◌, if◌then◌else◌, arith,
}
use c_programming_language.LruHeap.{SimulationState, key, swap_heap_nodes}

abbrev pub parent : ℕ → ℕ
parent c = (c - 1) / 2

-- Every slot holds a block, and every block knows its slot.
pub record IsLinked (s : SimulationState) : Type 0 where
  pub full : s.heap_size ≡ s.capacity
  pub slots : (i : ℕ) → i < s.heap_size → (s.heap i < s.heap_size) × (s.heap_index (s.heap i) ≡ i)
  pub blocks :
      (b : ℕ) → b < s.heap_size → (s.heap_index b < s.heap_size) × (s.heap (s.heap_index b) ≡ b)

-- every edge whose parent is at `lo` or later is in order
abbrev pub IsHeapFrom : ℕ → SimulationState → Type 0
IsHeapFrom lo s = (c : ℕ) → 0 < c → c < s.heap_size → lo ≤ parent c → key s (parent c) ≤ key s c

-- the edges past `i`, from its parent to its children, are in order
abbrev pub IsBridged : ℕ → SimulationState → ℕ → Type 0
IsBridged lo s i =
    (c : ℕ)
    → 0 < c
    → c < s.heap_size
    → parent c ≡ i
    → 0 < i
    → lo ≤ parent i
    → key s (parent i) ≤ key s c

-- only slots have moved
pub record Moved (s s' : SimulationState) : Type 0 where
  pub access : s'.last_access ≡ s.last_access
  pub size : s'.heap_size ≡ s.heap_size
  pub room : s'.capacity ≡ s.capacity
  pub clock : s'.current_time ≡ s.current_time

pub Moved-refl : (s : SimulationState) → Moved s s
Moved-refl s = record { access = refl; size = refl; room = refl; clock = refl }

pub Moved-trans : {s t u : SimulationState} → Moved s t → Moved t u → Moved s u
Moved-trans m n = record {
  access = n.access ∙ m.access;
  size = n.size ∙ m.size;
  room = n.room ∙ m.room;
  clock = n.clock ∙ m.clock;
}

-- A heap from `lo` on with the same blocks, linked to their slots.
pub record Sifted (lo : ℕ) (s s' : SimulationState) : Type 0 where
  pub order : IsHeapFrom lo s'
  pub linked : IsLinked s'
  pub moved : Moved s s'

-- The run ends, in a state with the property.
abbrev pub Returns : (SimulationState → Type 0) → Option SimulationState → Type 0
Returns P none = ⊥
Returns P (some s) = P s

pub swap-Moved : (s : SimulationState) (i j : ℕ) → Moved s (swap_heap_nodes s i j)
unfolding swap_heap_nodes
swap-Moved s i j = record { access = refl; size = refl; room = refl; clock = refl }

module _ (s : SimulationState) (i j : ℕ) where
  pub key-swap :
      (c : ℕ)
      → key (swap_heap_nodes s i j) c
        ≡ (if j == c then key s i else if i == c then key s j else key s c)
  unfolding key swap_heap_nodes
  key-swap c = ground arith

  pub swap-IsLinked :
      IsLinked s → i < s.heap_size → j < s.heap_size → IsLinked (swap_heap_nodes s i j)
  unfolding swap_heap_nodes
  swap-IsLinked v hi hj = record {
    full = v.full;
    slots = λ c h. ground (arith, v.slots c, v.slots i, v.slots j);
    blocks = λ b h. ground (arith, v.blocks b, v.slots i, v.slots j);
  }
