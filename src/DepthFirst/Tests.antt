-- ===== src/DepthFirst/Tests.antt =====
-- A run of the search.
use c_programming_language.Base.{
  ℕ, ◌≡◌, refl, ◌↔◌, Bool, true, false, Option, some, List, [], ◌∷◌, arith, ◌==◌, if◌then◌else◌,
  ◌>>=◌,
}
use c_programming_language.Reachable.{Reach, IsWithin}
use c_programming_language.DepthFirst.Correct.{dfs-reaches}
use c_programming_language.DepthFirst.{
  Graph, Search, create_graph, add, dfs, init_stack, visit, push, dfs_loop, is_empty, get_first,
  descend_loop, pop,
}
use c_programming_language.Base.Int.{◌+ℤ◌}

-- a graph of five vertices
abbrev graph : Option Graph
graph = do g ← add (create_graph 5 true) 0 4; g ← add g 0 1; g ← add g 1 2; g ← add g 1 4; add g 4 0

abbrev visited_of : Search → List Bool
visited_of s = s.visited 0 ∷ s.visited 1 ∷ s.visited 2 ∷ s.visited 3 ∷ s.visited 4 ∷ []

-- The search from 0 visits all vertices but 3.
dfs_of_graph :
    (graph >>= λ g. dfs 20 20 (λ i. 0) g 0 >>= λ s. some (visited_of s))
    ≡ some (true ∷ true ∷ true ∷ false ∷ true ∷ [])
unfolding add create_graph dfs init_stack visit push dfs_loop is_empty get_first descend_loop pop
    ◌+ℤ◌
dfs_of_graph = refl

abbrev three_adj : ℕ → List ℕ
three_adj u = if u == 0 then 1 ∷ 2 ∷ [] else if u == 2 then 0 ∷ 2 ∷ [] else []

-- the edges of three vertices
abbrev three : Graph
three = record { num_vert = 3; directed = true; adj = three_adj }

three-IsWithin : IsWithin 3 three_adj
three-IsWithin u v h e = ground arith

dfs-reaches_example :
    (t : Search) × (dfs 7 4 (λ i. 7) three 0 ≡ some t)
    × ((v : ℕ) → (t.visited v ≡ true) ↔ Reach three_adj 0 v)
dfs-reaches_example =
    dfs-reaches 7 4 (λ i. 7) three 0 three-IsWithin (omega arith) (omega arith) (omega arith)
