-- ===== src/BreadthFirst/Correct.antt =====
-- DataStructures/BFS/main.c: the search stays in the bounds of its arrays, ends, and marks the
-- vertices that can be reached.
use mathlib.Core.Path.{subst}
use c_programming_language.Base.{
  ℕ, zero, suc, ◌+◌, ◌-◌, ◌≤◌, ◌<◌, ◌≡◌, ◌∙◌, ap, sym, ◌↔◌, refl, inl, inr, true, false, Bool-cases,
  some, ltb, update, ◌==◌, arith,
}
use c_programming_language.Base.Int.{pos, ◌+ℤ◌}
use c_programming_language.Reachable.{
  Reach, here, step, IsWithin, unseen, unseen-update, unseen_none,
}
use c_programming_language.BreadthFirst.{
  Graph, Search, is_empty, get_head, deq, init_q, insert, visit, visit_loop, bfs_loop, bfs,
}
use c_programming_language.BreadthFirst.Visits.{
  pos_suc, IsSearching, IsScanned, IsOpen, visit_loop_lem,
}

-- the search without the head of its queue
abbrev past_head : Search → ℕ → Search
past_head t f = record t { queue = record t.queue { front = pos (suc f) } }

module _ (g : Graph) (src : ℕ) where
  is_empty-IsSearching :
      (s : Search) (f r : ℕ) → IsSearching g src s f r → is_empty s.queue ≡ ltb r f
  unfolding is_empty
  is_empty-IsSearching s f r is = rw (is.front, is.rear) (ground arith)

  adj-IsOpen :
      IsWithin g.num_vert g.adj
      → (s : Search) (f r : ℕ) → IsSearching g src s f r
      → f ≤ r
      → IsOpen g src (g.adj (s.queue.a f))
  adj-IsOpen within s f r is h v m =
      let (seen, bound) = is.queued f h in
      (step (is.sound (s.queue.a f) seen) m, within (s.queue.a f) v bound m)

  past_head-IsSearching :
      (s t : Search) (f r r' : ℕ)
      → f ≤ r
      → IsScanned g src (g.adj (s.queue.a f)) s f r t r'
      → IsSearching g src (past_head t f) (suc f) r'
  past_head-IsSearching s t f r r' h sc = record {
    front = refl;
    rear = sc.searching.rear;
    size = sc.searching.size;
    order = omega (arith, sc.longer);
    room = sc.searching.room;
    queued = sc.searching.queued;
    source = sc.searching.source;
    sound = sc.searching.sound;
    closed = λ u v m e. elim (sc.searching.closed u v m e) [
      | inr seen ↦ inr seen
      | inl (i, low, high, at_i) ↦ elim (Bool-cases (i == f)) [
        | inr other ↦ inl (i, ground arith, high, at_i)
        | inl head ↦
            let same : i ≡ f = ground arith in
            let from : s.queue.a f ≡ u = sym (sc.kept f h) ∙ ap t.queue.a (sym same) ∙ at_i in
            inr (sc.marks v (rw from e))
      ]
    ];
  }

  get_head-IsSearching :
      (s : Search) (f r : ℕ)
      → IsSearching g src s f r
      → f ≤ r
      → get_head s.queue ≡ some (s.queue.a f)
  unfolding get_head
  get_head-IsSearching s f r is h =
      let inside : ltb f g.num_vert ≡ true = ground (arith, is.room) in
      rw (is.front, is.size, inside) refl

  deq-IsSearching :
      (s : Search) (f r : ℕ)
      → IsSearching g src s f r
      → f ≤ r
      → deq s.queue ≡ some (pos (s.queue.a f), (past_head s f).queue)
  unfolding deq
  deq-IsSearching s f r is h =
      let inside : ltb f g.num_vert ≡ true = ground (arith, is.room) in
      let full : ltb r f ≡ false = ground arith in
      rw (is_empty-IsSearching s f r is, full, is.front, is.size, inside, pos_suc f) refl

  bfs_loop_round :
      (fuel : ℕ) (s t : Search) (f r r' : ℕ)
      → f ≤ r
      → IsSearching g src s f r
      → visit_loop g (g.adj (s.queue.a f)) s ≡ some t
      → IsScanned g src (g.adj (s.queue.a f)) s f r t r'
      → bfs_loop (suc fuel) g s ≡ bfs_loop fuel g (past_head t f)
  unfolding bfs_loop
  bfs_loop_round fuel s t f r r' h is run sc =
      let full : ltb r f ≡ false = ground arith in
      let vertex : ltb (s.queue.a f) g.num_vert ≡ true = ground (arith, is.queued f h) in
      rw
        (
          is_empty-IsSearching s f r is,
          full,
          get_head-IsSearching s f r is h,
          vertex,
          run,
          deq-IsSearching t f r' sc.searching (omega (arith, sc.longer)),
        )
        refl

  -- A round takes one vertex from the queue, and marks those that it puts there.
  bfs_loop_lem :
      IsWithin g.num_vert g.adj
      → (fuel : ℕ) (s : Search) (f r : ℕ) → IsSearching g src s f r
      → unseen g.num_vert s.visited + (suc r - f) < fuel
      → (t : Search) × (r' : ℕ) × (bfs_loop fuel g s ≡ some t) × IsSearching g src t (suc r') r'
  unfolding bfs_loop
  bfs_loop_lem within zero s f r is enough = absurd (omega arith)
  bfs_loop_lem within (suc fuel) s f r is enough = elim (Bool-cases (ltb r f)) [
    | inl e ↦
        let last : f ≡ suc r = ground (arith, is.order) in
        (
          s,
          r,
          rw (is_empty-IsSearching s f r is, e) refl,
          subst (λ z. IsSearching g src s z r) last is,
        )
    | inr e ↦
        let h : f ≤ r = ground arith in
        let (t, r', run, sc) =
          visit_loop_lem g src f r (g.adj (s.queue.a f)) s is (adj-IsOpen within s f r is h) in
        let (u, r2, go, done) =
          bfs_loop_lem within fuel (past_head t f) (suc f) r'
            (past_head-IsSearching s t f r r' h sc)
            (omega (arith, is.room, sc.searching.room, sc.longer)) in
        (u, r2, bfs_loop_round fuel s t f r r' h is run sc ∙ go, done)
  ]

-- the state before the loop
abbrev started : (ℕ → ℕ) → Graph → ℕ → Search
started a g src = record {
  visited = update (λ v. false) src true;
  queue = record { a = update a 0 src; size = g.num_vert; front = pos 0; rear = pos 0 };
}

visit-started :
    (a : ℕ → ℕ) (g : Graph) (src : ℕ)
    → src < g.num_vert
    → visit g (record { visited = λ v. false; queue = init_q a g.num_vert }) src
      ≡ some (started a g src)
unfolding visit insert init_q ◌+ℤ◌
visit-started a g src h =
    let vertex : ltb src g.num_vert ≡ true = ground arith in
    let room : ltb 0 g.num_vert ≡ true = ground arith in rw (vertex, room) refl

started-IsSearching :
    (a : ℕ → ℕ) (g : Graph) (src : ℕ) → src < g.num_vert → IsSearching g src (started a g src) 0 0
started-IsSearching a g src h = record {
  front = refl;
  rear = refl;
  size = refl;
  order = omega arith;
  room = omega (arith, unseen-update g.num_vert src (λ v. false) h refl, unseen_none g.num_vert);
  queued = λ i e. ground arith;
  source = ground arith;
  sound = λ v m. let same : src ≡ v = ground arith in subst (Reach g.adj src) same here;
  closed = λ u v m e. inl (0, omega arith, omega arith, ground arith);
}

-- With the queue empty, the marked vertices are closed under edges.
complete :
    (g : Graph) (src r : ℕ) (t : Search)
    → IsSearching g src t (suc r) r
    → {v : ℕ} → Reach g.adj src v
    → t.visited v ≡ true
complete g src r t is here = is.source
complete g src r t is (step {u} {v} walk e) = elim (is.closed u v (complete g src r t is walk) e) [
  | inl (i, low, high, at_i) ↦ absurd (omega arith)
  | inr seen ↦ seen
]

-- From a vertex of a graph whose edges stay in it, and with fuel for one round more than there are
-- vertices, the search ends without an index out of bounds, whatever `malloc` leaves in the queue,
-- and has marked exactly the vertices that can be reached.
pub bfs-reaches :
    (fuel : ℕ) (a : ℕ → ℕ) (g : Graph) (src : ℕ)
    → IsWithin g.num_vert g.adj
    → src < g.num_vert
    → g.num_vert < fuel
    → (t : Search) × (bfs fuel a g src ≡ some t)
      × ((v : ℕ) → (t.visited v ≡ true) ↔ Reach g.adj src v)
unfolding bfs
bfs-reaches fuel a g src within h enough =
    let is = started-IsSearching a g src h in
    let (t, r, e, end) =
      bfs_loop_lem g src within fuel (started a g src) 0 0 is (omega (arith, is.room)) in
    (t, rw (visit-started a g src h) e, λ v. (end.sound v, complete g src r t end))
