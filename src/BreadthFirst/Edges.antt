-- ===== src/BreadthFirst/Edges.antt =====
-- DataStructures/BFS/main.c: the edges of a graph that `add` builds.
use c_programming_language.Base.{
  ℕ, ◌<◌, ◌≡◌, refl, inl, inr, true, Bool-cases, ◌&&◌, ◌||◌, not, some, ltb, mem, update, ◌==◌,
  arith, List, ◌∷◌,
}
use c_programming_language.BreadthFirst.{Graph, add, add_edge}

mem-update :
    (adj : ℕ → List ℕ) (a b u v : ℕ)
    → mem v (update adj a (b ∷ adj a) u) ≡ (mem v (adj u) || (u == a && v == b))
mem-update adj a b u v = elim (Bool-cases (a == u)) [
  | inl e ↦ let same : a ≡ u = ground arith in rw same (ground arith)
  | inr e ↦ ground arith
]

-- `add` puts an edge between two vertices of the graph, both ways if the graph is undirected, and
-- keeps every other edge as it was.
pub add_lem :
    (g : Graph) (src dest : ℕ)
    → src < g.num_vert
    → dest < g.num_vert
    → (h : Graph) × (add g src dest ≡ some h)
      × (h.num_vert ≡ g.num_vert)
      × (h.dir ≡ g.dir)
      × ((u v : ℕ)
          → mem v (h.adj u) ≡ (
              mem v (g.adj u)
              || ((u == src && v == dest) || (not g.dir && (u == dest && v == src)))))
unfolding add add_edge
add_lem g src dest hs hd = elim (Bool-cases g.dir) [
  | inl e ↦
      let start : ltb src g.num_vert ≡ true = ground arith in
      rw (start, e) (_, refl, refl, refl, λ u v. ground (arith, mem-update g.adj src dest u v))
  | inr e ↦
      let start : ltb src g.num_vert ≡ true = ground arith in
      let end : ltb dest g.num_vert ≡ true = ground arith in
      rw (start, e, end)
        (
          _,
          refl,
          refl,
          refl,
          λ u v. ground (
            arith,
            mem-update g.adj src dest u v,
            mem-update (update g.adj src (dest ∷ g.adj src)) dest src u v,
          ),
        )
]
