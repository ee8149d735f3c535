-- ===== src/DepthFirst.antt =====
-- DataStructures/DFS/main.c: depth first search on adjacency lists, with a stack in an array. A
-- vertex is a number, an adjacency list is a list of vertices, and an array is a function of its
-- index. `none` is an index out of bounds, or fuel that is used up. Prints are left out.
pub mod Visits
pub mod Correct
mod Tests
use c_programming_language.Base.{
  ℕ, zero, suc, Bool, true, false, Option, none, some, ◌>>=◌, List, [], ◌∷◌, ltb, ◌==◌,
  if◌then◌else◌, update,
}
use c_programming_language.Base.Int.{ℤ, pos, negsuc, ◌+ℤ◌, ltb_ℤ, eqb_ℤ, index}

pub record Stack : Type 0 where
  pub a : ℕ → ℕ
  pub n : ℕ
  pub top : ℤ

pub record Graph : Type 0 where
  pub num_vert : ℕ
  pub adj : ℕ → List ℕ
  pub directed : Bool

-- The graph for which memory is left.
unfoldable pub create_graph : ℕ → Bool → Graph
create_graph num dir = record { num_vert = num; adj = λ i. []; directed = dir }

-- The edge goes one way, whatever `directed` says; `malloc` succeeds.
unfoldable pub add : Graph → ℕ → ℕ → Option Graph
add g src dest =
    if ltb src g.num_vert
    then some (record g { adj = update g.adj src (dest ∷ g.adj src) })
    else none

-- `a` is what `malloc` leaves in the array.
unfoldable pub init_stack : (ℕ → ℕ) → ℕ → Stack
init_stack a n = record { a = a; n = n; top = negsuc 0 }

-- `delete_stack` frees the array.
unfoldable pub delete_stack : Stack → Stack
delete_stack t = record t { n = 0; top = negsuc 0 }

unfoldable pub is_empty : Stack → Bool
is_empty t = eqb_ℤ t.top (negsuc 0)

unfoldable pub get_first : Stack → Option ℕ
get_first t = do i ← index t.n t.top; some (t.a i)

-- The test lets `top` reach `n`, which is out of bounds. A full stack is only reported.
unfoldable pub push : Stack → ℕ → Option Stack
push t d =
    if ltb_ℤ t.top (pos t.n)
    then (do
      i ← index t.n (t.top +ℤ pos 1)
      some (record t { top = t.top +ℤ pos 1; a = update t.a i d }))
    else some t

-- The value is the one that `pop` returns.
unfoldable pub pop : Stack → Option (ℤ × Stack)
unfolding is_empty
pop t =
    if is_empty t
    then some (negsuc 0, t)
    else (do i ← index t.n t.top; some (pos (t.a i), record t { top = t.top +ℤ negsuc 0 }))

-- the variables of `dfs`
pub record Search : Type 0 where
  pub visited : ℕ → Bool
  pub stack : Stack

-- `visited[v]=true; push(&t,v);`
unfoldable pub visit : Graph → Search → ℕ → Option Search
visit g s v =
    if ltb v g.num_vert
    then (do t ← push s.stack v; some (record { visited = update s.visited v true; stack = t }))
    else none

-- `while(p)`: after a new vertex the walk goes on in that vertex's list
unfoldable pub descend_loop : ℕ → Graph → List ℕ → Search → Option Search
descend_loop zero g p s = none
descend_loop (suc fuel) g [] s = some s
descend_loop (suc fuel) g (v ∷ p) s =
    let skipped = descend_loop fuel g p s in
    let visited : Option Search = visit g s v >>= descend_loop fuel g (g.adj v) in
    if ltb v g.num_vert then (if s.visited v then skipped else visited) else none

-- `while(!isEmpty(&t))`; every walk below has the same fuel
unfoldable pub dfs_loop : ℕ → ℕ → Graph → Search → Option Search
dfs_loop steps zero g s = none
dfs_loop steps (suc fuel) g s =
    let rest : Option Search = get_first s.stack >>= λ u. index g.num_vert (pos u) >>= λ i.
    descend_loop steps g (g.adj i) s >>= λ s'.
    pop s'.stack >>= λ d. dfs_loop steps fuel g (record s' { stack = d.1 }) in
    if is_empty s.stack then some s else rest

unfoldable pub dfs : ℕ → ℕ → (ℕ → ℕ) → Graph → ℕ → Option Search
dfs steps fuel a g s =
    visit g (record { visited = λ v. false; stack = init_stack a g.num_vert }) s
    >>= dfs_loop steps fuel g
