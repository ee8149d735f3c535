-- ===== src/BreadthFirst/Tests.antt =====
-- A run of the search.
use c_programming_language.Base.{
  ℕ, ◌≡◌, refl, ◌↔◌, Bool, true, false, Option, some, List, [], ◌∷◌, arith, ◌==◌, if◌then◌else◌,
  ◌>>=◌,
}
use c_programming_language.Reachable.{Reach, IsWithin}
use c_programming_language.BreadthFirst.Correct.{bfs-reaches}
use c_programming_language.BreadthFirst.{
  Graph, Search, create_graph, add, add_edge, bfs, init_q, visit, insert, bfs_loop, is_empty,
  get_head, visit_loop, deq,
}
use c_programming_language.Base.Int.{◌+ℤ◌}

-- a graph of five vertices
abbrev graph : Option Graph
graph = do g ← add (create_graph 5 true) 0 4; g ← add g 0 1; g ← add g 1 2; g ← add g 1 4; add g 4 0

abbrev visited_of : Search → List Bool
visited_of s = s.visited 0 ∷ s.visited 1 ∷ s.visited 2 ∷ s.visited 3 ∷ s.visited 4 ∷ []

-- The search from 0 visits all vertices but 3.
bfs_of_graph :
    (graph >>= λ g. bfs 6 (λ i. 0) g 0 >>= λ s. some (visited_of s))
    ≡ some (true ∷ true ∷ true ∷ false ∷ true ∷ [])
unfolding add add_edge create_graph bfs init_q visit insert bfs_loop is_empty get_head visit_loop
    deq ◌+ℤ◌
bfs_of_graph = refl

abbrev three_adj : ℕ → List ℕ
three_adj u = if u == 0 then 1 ∷ 2 ∷ [] else if u == 2 then 0 ∷ 2 ∷ [] else []

-- the edges of three vertices
abbrev three : Graph
three = record { num_vert = 3; dir = true; adj = three_adj }

three-IsWithin : IsWithin 3 three_adj
three-IsWithin u v h e = ground arith

bfs-reaches_example :
    (t : Search) × (bfs 4 (λ i. 7) three 0 ≡ some t)
    × ((v : ℕ) → (t.visited v ≡ true) ↔ Reach three_adj 0 v)
bfs-reaches_example = bfs-reaches 4 (λ i. 7) three 0 three-IsWithin (omega arith) (omega arith)
