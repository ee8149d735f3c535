-- ===== src/BreadthFirst.antt =====
-- DataStructures/BFS/main.c: breadth first search on adjacency lists, with a queue in an array. A
-- vertex is a number, an adjacency list is a list of vertices, and an array is a function of its
-- index. `none` is an index out of bounds, or fuel that is used up. Prints are left out.
pub mod Visits
pub mod Edges
pub mod Correct
mod Tests
use c_programming_language.Base.{
  ℕ, zero, suc, Bool, true, false, ◌&&◌, ◌||◌, Option, none, some, ◌>>=◌, List, [], ◌∷◌, ltb, ◌==◌,
  if◌then◌else◌, update,
}
use c_programming_language.Base.Int.{ℤ, pos, negsuc, ◌+ℤ◌, ltb_ℤ, eqb_ℤ, index}

pub record Queue : Type 0 where
  pub a : ℕ → ℕ
  pub size : ℕ
  pub front : ℤ
  pub rear : ℤ

pub record Graph : Type 0 where
  pub num_vert : ℕ
  pub dir : Bool
  pub adj : ℕ → List ℕ

-- The graph for which memory is left.
unfoldable pub create_graph : ℕ → Bool → Graph
create_graph num_vert dir = record { num_vert = num_vert; dir = dir; adj = λ i. [] }

-- the edge from `u` to `v`, where `malloc` succeeds
unfoldable pub add_edge : Graph → ℕ → ℕ → Option Graph
add_edge g u v =
    if ltb u g.num_vert then some (record g { adj = update g.adj u (v ∷ g.adj u) }) else none

unfoldable pub add : Graph → ℕ → ℕ → Option Graph
unfolding add_edge
add g src dest = add_edge g src dest >>= λ g'. if g'.dir then some g' else add_edge g' dest src

-- `a` is what `malloc` leaves in the array.
unfoldable pub init_q : (ℕ → ℕ) → ℕ → Queue
init_q a size = record { a = a; size = size; front = negsuc 0; rear = negsuc 0 }

unfoldable pub is_empty : Queue → Bool
is_empty t = ltb_ℤ t.rear t.front || eqb_ℤ t.front (negsuc 0)

unfoldable pub get_head : Queue → Option ℕ
get_head t = do i ← index t.size t.front; some (t.a i)

-- The value is the one that `deq` returns.
unfoldable pub deq : Queue → Option (ℤ × Queue)
unfolding is_empty
deq t =
    if is_empty t
    then some (negsuc 0, record t { rear = negsuc 0 })
    else (do i ← index t.size t.front; some (pos (t.a i), record t { front = t.front +ℤ pos 1 }))

-- the assignments to `t->rear` and `t->a[t->rear]`
abbrev insert_rear : Queue → ℕ → Option Queue
insert_rear t vertex = do
  i ← index t.size (t.rear +ℤ pos 1)
  some (record t { rear = t.rear +ℤ pos 1; a = update t.a i vertex })

-- An overflow is only printed.
unfoldable pub insert : Queue → ℕ → Option Queue
insert t vertex =
    if eqb_ℤ t.front (negsuc 0) && eqb_ℤ t.rear (negsuc 0)
    then insert_rear (record t { front = t.front +ℤ pos 1 }) vertex
    else insert_rear t vertex

-- `delete_q` frees the array.
unfoldable pub delete_q : Queue → Queue
delete_q t = record t { size = 0; front = negsuc 0; rear = negsuc 0 }

-- the variables of `bfs`
pub record Search : Type 0 where
  pub visited : ℕ → Bool
  pub queue : Queue

-- `visited[v]=true; insert(&t,v);`
unfoldable pub visit : Graph → Search → ℕ → Option Search
visit g s v =
    if ltb v g.num_vert
    then (do t ← insert s.queue v; some (record { visited = update s.visited v true; queue = t }))
    else none

-- `while(p)`
unfoldable pub visit_loop : Graph → List ℕ → Search → Option Search
visit_loop g [] s = some s
visit_loop g (v ∷ p) s =
    let skipped = visit_loop g p s in
    let visited : Option Search = visit g s v >>= visit_loop g p in
    if ltb v g.num_vert then (if s.visited v then skipped else visited) else none

-- `while(!isEmpty(&t))`
unfoldable pub bfs_loop : ℕ → Graph → Search → Option Search
bfs_loop zero g s = none
bfs_loop (suc fuel) g s =
    let rest : Option Search = get_head s.queue >>= λ u. index g.num_vert (pos u) >>= λ i.
    visit_loop g (g.adj i) s >>= λ s'.
    deq s'.queue >>= λ d. bfs_loop fuel g (record s' { queue = d.1 }) in
    if is_empty s.queue then some s else rest

unfoldable pub bfs : ℕ → (ℕ → ℕ) → Graph → ℕ → Option Search
bfs fuel a g s =
    visit g (record { visited = λ v. false; queue = init_q a g.num_vert }) s >>= bfs_loop fuel g
