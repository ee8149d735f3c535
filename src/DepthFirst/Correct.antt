-- ===== src/DepthFirst/Correct.antt =====
-- DataStructures/DFS/main.c: the search stays in the bounds of its arrays, ends, and marks the
-- vertices that can be reached.
use mathlib.Core.Path.{subst}
use c_programming_language.Base.{
  ℕ, zero, suc, ◌+◌, ◌≤◌, ◌<◌, ◌≡◌, ◌∙◌, ap, ◌↔◌, refl, inl, inr, true, false, Bool-cases, some,
  ltb, update, ◌==◌, arith,
}
use c_programming_language.Base.Int.{pos, ◌+ℤ◌, top_index, top_index_pred}
use c_programming_language.Reachable.{
  Reach, here, step, IsWithin, unseen, unseen-update, unseen_none, size_of, steps_left_marked,
}
use c_programming_language.DepthFirst.{
  Graph, Search, is_empty, get_first, pop, init_stack, push, visit, descend_loop, dfs_loop, dfs,
}
use c_programming_language.DepthFirst.Visits.{
  IsSearching, IsWalked, list-IsWalking, descend_loop_lem,
}

-- the search without the vertex on the top
abbrev popped : Search → ℕ → Search
popped t k = record t { stack = record t.stack { top = top_index k } }

module _ (g : Graph) (src : ℕ) where
  is_empty-IsSearching : (s : Search) (m : ℕ) → IsSearching g src s m → is_empty s.stack ≡ (m == 0)
  unfolding is_empty
  is_empty-IsSearching s zero is = rw (is.top) refl
  is_empty-IsSearching s (suc k) is = rw (is.top) (ground arith)

  popped-IsSearching :
      (s t : Search) (k k' : ℕ) → IsWalked g src s t k k' → IsSearching g src (popped t k') k'
  popped-IsSearching s t k k' walked = record {
    top = refl;
    size = walked.searching.size;
    room = omega (arith, walked.searching.room);
    stacked = λ i h. walked.searching.stacked i (omega arith);
    source = walked.searching.source;
    sound = walked.searching.sound;
    closed = λ u v m e. elim (walked.searching.closed u v m e) [
      | inr seen ↦ inr seen
      | inl (i, low, at_i) ↦ elim (Bool-cases (i == k')) [
        | inr other ↦ inl (i, ground arith, at_i)
        | inl top ↦
            let same : k' ≡ i = ground arith in
            let from : t.stack.a k' ≡ u = ap t.stack.a same ∙ at_i in
            inr (walked.finished v (rw from e))
      ]
    ];
  }

  get_first-IsSearching :
      (s : Search) (k : ℕ) → IsSearching g src s (suc k) → get_first s.stack ≡ some (s.stack.a k)
  unfolding get_first
  get_first-IsSearching s k is =
      let inside : ltb k g.num_vert ≡ true = ground (arith, is.room) in
      rw (is.top, is.size, inside) refl

  pop-IsSearching :
      (s : Search) (k : ℕ)
      → IsSearching g src s (suc k)
      → pop s.stack ≡ some (pos (s.stack.a k), (popped s k).stack)
  unfolding pop
  pop-IsSearching s k is =
      let inside : ltb k g.num_vert ≡ true = ground (arith, is.room) in
      let full : (suc k == 0) ≡ false = ground arith in
      rw (is_empty-IsSearching s (suc k) is, full, is.top, is.size, inside, top_index_pred k) refl

  dfs_loop_round :
      (steps fuel : ℕ) (s t : Search) (k k' : ℕ)
      → IsSearching g src s (suc k)
      → descend_loop steps g (g.adj (s.stack.a k)) s ≡ some t
      → IsWalked g src s t k k'
      → dfs_loop steps (suc fuel) g s ≡ dfs_loop steps fuel g (popped t k')
  unfolding dfs_loop
  dfs_loop_round steps fuel s t k k' is run walked =
      let full : (suc k == 0) ≡ false = ground arith in
      let vertex : ltb (s.stack.a k) g.num_vert ≡ true = ground (arith, is.stacked k) in
      rw
        (
          is_empty-IsSearching s (suc k) is,
          full,
          get_first-IsSearching s k is,
          vertex,
          run,
          pop-IsSearching t k' walked.searching,
        )
        refl

  -- A round walks down from the vertex on the top, and then takes one vertex from the stack.
  dfs_loop_lem :
      IsWithin g.num_vert g.adj
      → (steps fuel : ℕ) (s : Search) (m : ℕ) → size_of g.num_vert g.adj ≤ steps
      → IsSearching g src s m
      → unseen g.num_vert s.visited + m < fuel
      → (t : Search) × (dfs_loop steps fuel g s ≡ some t) × IsSearching g src t 0
  unfolding dfs_loop
  dfs_loop_lem within steps zero s m long is enough = absurd (omega arith)
  dfs_loop_lem within steps (suc fuel) s zero long is enough =
      (s, rw (is_empty-IsSearching s 0 is) refl, is)
  dfs_loop_lem within steps (suc fuel) s (suc k) long is enough =
      let (seen, bound) = is.stacked k (omega arith) in
      let left = steps_left_marked g.num_vert (s.stack.a k) g.adj s.visited bound seen in
      let (t, k', run, walked) =
        descend_loop_lem g src within steps k (g.adj (s.stack.a k)) s is
          (list-IsWalking g src within s k is) (omega (arith, left)) in
      let (u, go, done) =
        dfs_loop_lem within steps fuel (popped t k') k' long (popped-IsSearching s t k k' walked)
          (omega (arith, walked.work)) in
      (u, dfs_loop_round steps fuel s t k k' is run walked ∙ go, done)

-- the state before the loop
abbrev started : (ℕ → ℕ) → Graph → ℕ → Search
started a g src = record {
  visited = update (λ v. false) src true;
  stack = record { a = update a 0 src; n = g.num_vert; top = pos 0 };
}

visit-started :
    (a : ℕ → ℕ) (g : Graph) (src : ℕ)
    → src < g.num_vert
    → visit g (record { visited = λ v. false; stack = init_stack a g.num_vert }) src
      ≡ some (started a g src)
unfolding visit push init_stack ◌+ℤ◌
visit-started a g src h =
    let vertex : ltb src g.num_vert ≡ true = ground arith in
    let room : ltb 0 g.num_vert ≡ true = ground arith in
    let under : ltb 0 (g.num_vert + 1) ≡ true = ground arith in rw (vertex, room, under) refl

started-IsSearching :
    (a : ℕ → ℕ) (g : Graph) (src : ℕ) → src < g.num_vert → IsSearching g src (started a g src) 1
started-IsSearching a g src h = record {
  top = refl;
  size = refl;
  room = omega (arith, unseen-update g.num_vert src (λ v. false) h refl, unseen_none g.num_vert);
  stacked = λ i e. ground arith;
  source = ground arith;
  sound = λ v m. let same : src ≡ v = ground arith in subst (Reach g.adj src) same here;
  closed = λ u v m e. inl (0, omega arith, ground arith);
}

-- With the stack empty, the marked vertices are closed under edges.
complete :
    (g : Graph) (src : ℕ) (t : Search)
    → IsSearching g src t 0
    → {v : ℕ} → Reach g.adj src v
    → t.visited v ≡ true
complete g src t is here = is.source
complete g src t is (step {u} {v} walk e) = elim (is.closed u v (complete g src t is walk) e) [
  | inl (i, low, at_i) ↦ absurd (omega arith)
  | inr seen ↦ seen
]

-- From a vertex of a graph whose edges stay in it, with fuel for one round more than there are
-- vertices, and for as many steps of each walk as there are vertices and edges, the search ends
-- without an index out of bounds, whatever `malloc` leaves in the stack, and has marked exactly the
-- vertices that can be reached.
pub dfs-reaches :
    (steps fuel : ℕ) (a : ℕ → ℕ) (g : Graph) (src : ℕ)
    → IsWithin g.num_vert g.adj
    → src < g.num_vert
    → size_of g.num_vert g.adj ≤ steps
    → g.num_vert < fuel
    → (t : Search) × (dfs steps fuel a g src ≡ some t)
      × ((v : ℕ) → (t.visited v ≡ true) ↔ Reach g.adj src v)
unfolding dfs
dfs-reaches steps fuel a g src within h long enough =
    let is = started-IsSearching a g src h in
    let (t, e, end) =
      dfs_loop_lem g src within steps fuel (started a g src) 1 long is (omega (arith, is.room)) in
    (t, rw (visit-started a g src h) e, λ v. (end.sound v, complete g src t end))
