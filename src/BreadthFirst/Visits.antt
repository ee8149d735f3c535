-- ===== src/BreadthFirst/Visits.antt =====
-- DataStructures/BFS/main.c: the state of a search with `f` for the front and `r` for the rear of its
-- queue, and what the inner loop does to it.
use mathlib.Core.Path.{subst}
use c_programming_language.Base.{
  ℕ, suc, ◌+◌, ◌≤◌, ◌<◌, ◌≡◌, ◌⊎◌, refl, inl, inr, true, false, Bool-cases, some, List, [], ◌∷◌,
  ltb, mem, update, ◌==◌, arith,
}
use c_programming_language.Base.Int.{pos, ◌+ℤ◌}
use c_programming_language.Reachable.{Reach, unseen, unseen-update}
use c_programming_language.BreadthFirst.{Graph, Search, insert, visit, visit_loop}

pub pos_suc : (n : ℕ) → pos n +ℤ pos 1 ≡ pos (suc n)
unfolding ◌+ℤ◌
pos_suc n = ground arith

-- a slot of the queue that holds `u`
abbrev pub Waits : ℕ → ℕ → (ℕ → ℕ) → ℕ → Type 0
Waits f r a u = (i : ℕ) × (f ≤ i) × (i ≤ r) × (a i ≡ u)

pub record IsSearching (g : Graph) (src : ℕ) (s : Search) (f r : ℕ) : Type 0 where
  pub front : s.queue.front ≡ pos f
  pub rear : s.queue.rear ≡ pos r
  pub size : s.queue.size ≡ g.num_vert
  pub order : f ≤ suc r
  pub room : unseen g.num_vert s.visited + suc r ≡ g.num_vert
  pub queued : (i : ℕ) → i ≤ r → (s.visited (s.queue.a i) ≡ true) × (s.queue.a i < g.num_vert)
  pub source : s.visited src ≡ true
  pub sound : (v : ℕ) → s.visited v ≡ true → Reach g.adj src v
  pub closed :
      (u v : ℕ)
      → s.visited u ≡ true
      → mem v (g.adj u) ≡ true
      → Waits f r s.queue.a u ⊎ (s.visited v ≡ true)

-- `s` after the visit of `v`
abbrev pub visited_at : Search → ℕ → ℕ → Search
visited_at s v r = record {
  visited = update s.visited v true;
  queue = record s.queue { rear = pos (suc r); a = update s.queue.a (suc r) v };
}

module _ (g : Graph) (src f r v : ℕ) (s : Search) (is : IsSearching g src s f r)
    (bound : v < g.num_vert) (fresh : s.visited v ≡ false) where
  pub fits : suc r < g.num_vert
  fits = omega (arith, is.room, unseen-update g.num_vert v s.visited bound fresh)

  pub visit-visited_at : visit g s v ≡ some (visited_at s v r)
  unfolding visit insert
  visit-visited_at =
      let b : ltb v g.num_vert ≡ true = ground arith in
      let c : ltb (suc r) g.num_vert ≡ true = ground (arith, fits) in
      rw (b, is.front, is.rear, pos_suc r, is.size, c) (ground arith)

  pub visited_at-IsSearching : Reach g.adj src v → IsSearching g src (visited_at s v r) f (suc r)
  visited_at-IsSearching reach = record {
    front = is.front;
    rear = refl;
    size = is.size;
    order = omega (arith, is.order);
    room = omega (arith, is.room, unseen-update g.num_vert v s.visited bound fresh);
    queued = λ i h. ground (arith, is.queued i);
    source = ground (arith, is.source);
    sound = λ w m. elim (Bool-cases (v == w)) [
      | inl t ↦ let same : v ≡ w = ground arith in subst (Reach g.adj src) same reach
      | inr t ↦ is.sound w (ground arith)
    ];
    closed = λ u w m e. elim (Bool-cases (v == u)) [
      | inl t ↦ inl (suc r, is.order, omega arith, ground arith)
      | inr t ↦ elim (is.closed u w (ground arith) e) [
        | inl (i, low, high, at_i) ↦ inl (i, low, omega arith, ground arith)
        | inr seen ↦ inr (ground arith)
      ]
    ];
  }

-- A list of vertices that can be reached, all of them below `num_vert`.
abbrev pub IsOpen : Graph → ℕ → List ℕ → Type 0
IsOpen g src p = (v : ℕ) → mem v p ≡ true → Reach g.adj src v × (v < g.num_vert)

-- After the walk over a list its vertices are all marked; the front is as before, and the slots of
-- the queue that were in use hold what they held.
pub record IsScanned (g : Graph) (src : ℕ) (p : List ℕ) (s : Search) (f r : ℕ) (t : Search) (r' : ℕ)
    : Type 0 where
  pub searching : IsSearching g src t f r'
  pub longer : r ≤ r'
  pub kept : (i : ℕ) → i ≤ r → t.queue.a i ≡ s.queue.a i
  pub marks : (v : ℕ) → mem v p ≡ true → t.visited v ≡ true
  pub keeps : (v : ℕ) → s.visited v ≡ true → t.visited v ≡ true

pub visit_loop_lem :
    (g : Graph) (src f r : ℕ) (p : List ℕ) (s : Search)
    → IsSearching g src s f r
    → IsOpen g src p
    → (t : Search) × (r' : ℕ) × (visit_loop g p s ≡ some t) × IsScanned g src p s f r t r'
unfolding visit_loop
visit_loop_lem g src f r [] s is reached = (
  s,
  r,
  refl,
  record {
    searching = is;
    longer = omega arith;
    kept = λ i h. refl;
    marks = λ v m. ground arith;
    keeps = λ v m. m;
  },
)
visit_loop_lem g src f r (v ∷ p) s is reached =
    let (reach, bound) = reached v (ground arith) in
    let in_range : ltb v g.num_vert ≡ true = ground arith in
    elim (Bool-cases (s.visited v)) [
      | inl seen ↦
          let (t, r', e, sc) = visit_loop_lem g src f r p s is (λ w m. reached w (ground arith)) in
          (
            t,
            r',
            rw (in_range, seen) e,
            record {
              searching = sc.searching;
              longer = sc.longer;
              kept = sc.kept;
              marks = λ w m. ground (arith, sc.marks w, sc.keeps w);
              keeps = sc.keeps;
            },
          )
      | inr fresh ↦
          let (t, r', e, sc) =
            visit_loop_lem g src f (suc r) p (visited_at s v r)
              (visited_at-IsSearching g src f r v s is bound fresh reach)
              (λ w m. reached w (ground arith)) in
          (
            t,
            r',
            rw (in_range, fresh, visit-visited_at g src f r v s is bound fresh) e,
            record {
              searching = sc.searching;
              longer = omega (arith, sc.longer);
              kept = λ i h. ground (arith, sc.kept i);
              marks = λ w m. ground (arith, sc.marks w, sc.keeps w);
              keeps = λ w m. ground (arith, sc.keeps w);
            },
          )
    ]
