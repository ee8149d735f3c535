-- ===== src/ThreadedQueue/Shape.antt =====
-- What the nodes of the queue are in every state: a chain from the dummy to the tail, apart from the
-- nodes that a thread has for itself, and the values in them, apart from those in a thread's hands.
use c_programming_language.Base.{
  ℕ, ◌+◌, ◌<◌, ◌≡◌, ◌≢◌, Bool, Option, none, some, List, [], ◌∷◌, ◌++◌, map, All, ◌==◌,
  if◌then◌else◌,
}
use c_programming_language.Base.Threads.{count, total}
use c_programming_language.Memory.{Ptr, null}
use c_programming_language.ThreadedQueue.{
  Shared, Pc, has_item, has_node, tail_held, linked, tail_set, old_held, empty, next_seen,
  next_held, taken, next_free, old_free, freed, counted_out, returned,
}
use c_programming_language.ThreadedQueue.Chain.{Follows, last, tail_of}

abbrev pub bit : Bool → ℕ
bit b = if b then 1 else 0

-- whether a thread has the node `a` for itself
abbrev pub node_of : Ptr → Pc → ℕ
node_of a (has_node k p v) = bit (a == p)
node_of a (tail_held k p v) = bit (a == p)
node_of a (taken old nx v) = bit (a == old)
node_of a (next_free old v) = bit (a == old)
node_of a (old_free old v) = bit (a == old)
node_of a pc = 0

-- whether a thread has the value `a` in hand
abbrev pub item_of : Ptr → Pc → ℕ
item_of a (has_item k v) = bit (a == v)
item_of a (has_node k p v) = bit (a == v)
item_of a (tail_held k p v) = bit (a == v)
item_of a (taken old nx v) = bit (a == v)
item_of a (next_free old v) = bit (a == v)
item_of a (old_free old v) = bit (a == v)
item_of a (freed v) = bit (a == v)
item_of a (counted_out v) = bit (a == v)
item_of a (returned v) = bit (a == v)
item_of a pc = 0

abbrev pub held : Option ℕ → ℕ
held none = 0
held (some c) = 1

-- What a thread knows at its place, with the fields of the queue that it is about.
abbrev pub Knows : (Ptr → Ptr) → (Ptr → Ptr) → Ptr → Ptr → List Ptr → Pc → Type 0
Knows next value head tail rest (has_item k a) = a ≢ null
Knows next value head tail rest (has_node k p a) =
    (a ≢ null) × (p ≢ null) × (next p ≡ null) × (value p ≡ a)
Knows next value head tail rest (tail_held k p a) =
    (a ≢ null) × (p ≢ null) × (next p ≡ null) × (value p ≡ a) × (last head rest ≡ tail)
Knows next value head tail rest (linked k p) = last head rest ≡ p
Knows next value head tail rest (tail_set k) = last head rest ≡ tail
Knows next value head tail rest (old_held old) = old ≡ head
Knows next value head tail rest (empty old) = old ≡ head
Knows next value head tail rest (next_seen old nx) = (old ≡ head) × (next head ≡ nx) × (nx ≢ null)
Knows next value head tail rest (next_held old nx) = (old ≡ head) × (next head ≡ nx) × (nx ≢ null)
Knows next value head tail rest (taken old nx v) = (nx ≡ head) × (old ≢ null) × (v ≢ null)
Knows next value head tail rest (next_free old v) = (old ≢ null) × (v ≢ null)
Knows next value head tail rest (old_free old v) = (old ≢ null) × (v ≢ null)
Knows next value head tail rest (freed v) = v ≢ null
Knows next value head tail rest (counted_out v) = v ≢ null
Knows next value head tail rest pc = Unit

-- `rest` are the nodes behind the dummy.
pub record Shape (n : ℕ) (m : Shared) (pc : ℕ → Pc) (rest : List Ptr) : Type 0 where
  pub head_set : m.head ≢ null
  pub chain : Follows m.next m.head rest
  pub tail_at : m.tail_lock ≡ none → last m.head rest ≡ m.tail
  pub knows : (i : ℕ) → i < n → Knows m.next m.value m.head m.tail rest (pc i)
  pub nodes : (a : Ptr) → total (node_of a) n pc + count a (m.head ∷ rest) ≡ bit (m.live a)
  pub items :
      (a : Ptr) → a ≢ null → total (item_of a) n pc + count a (map m.value rest) ≡ held (m.cells a)
  pub valued : All (λ v. v ≢ null) (map m.value rest)
  pub ordered : m.sent ≡ m.received ++ map m.value rest

-- the nodes behind the dummy after a thread's step
abbrev pub rest_after : Pc → List Ptr → List Ptr
rest_after (tail_held k p a) rest = rest ++ p ∷ []
rest_after (next_held old nx) rest = tail_of rest
rest_after pc rest = rest
