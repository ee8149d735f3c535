-- ===== src/DepthFirst/Visits.antt =====
-- DataStructures/DFS/main.c: the state of a search with `m` vertices on its stack, and what the walk
-- of the inner loop does to it.
use mathlib.Core.Path.{subst}
use c_programming_language.Base.{
  ℕ, zero, suc, ◌+◌, ◌≤◌, ◌<◌, ◌≡◌, ◌⊎◌, ap, sym, ◌∙◌, refl, inl, inr, true, false, Bool-cases,
  some, List, [], ◌∷◌, ltb, mem, update, length, ◌==◌, arith,
}
use c_programming_language.Base.Int.{pos, ltb_ℤ, top_index, top_index_suc}
use c_programming_language.Reachable.{
  Reach, step, IsWithin, unseen, unseen-update, steps_left, steps_left-update,
}
use c_programming_language.DepthFirst.{Graph, Search, push, visit, descend_loop}

-- a slot of the stack that holds `u`
abbrev pub Stacked : ℕ → (ℕ → ℕ) → ℕ → Type 0
Stacked m a u = (i : ℕ) × (i < m) × (a i ≡ u)

pub record IsSearching (g : Graph) (src : ℕ) (s : Search) (m : ℕ) : Type 0 where
  pub top : s.stack.top ≡ top_index m
  pub size : s.stack.n ≡ g.num_vert
  pub room : m + unseen g.num_vert s.visited ≤ g.num_vert
  pub stacked : (i : ℕ) → i < m → (s.visited (s.stack.a i) ≡ true) × (s.stack.a i < g.num_vert)
  pub source : s.visited src ≡ true
  pub sound : (v : ℕ) → s.visited v ≡ true → Reach g.adj src v
  pub closed :
      (u v : ℕ)
      → s.visited u ≡ true
      → mem v (g.adj u) ≡ true
      → Stacked m s.stack.a u ⊎ (s.visited v ≡ true)

-- `s` after the visit of `v`
abbrev pub visited_at : Search → ℕ → ℕ → Search
visited_at s v m = record {
  visited = update s.visited v true;
  stack = record s.stack { top = pos m; a = update s.stack.a m v };
}

pub below_room : (n m : ℕ) → m < n → ltb_ℤ (top_index m) (pos n) ≡ true
below_room n zero h = ground arith
below_room n (suc m) h = ground arith

module _ (g : Graph) (src m v : ℕ) (s : Search) (is : IsSearching g src s m)
    (bound : v < g.num_vert) (fresh : s.visited v ≡ false) where
  fits : m < g.num_vert
  fits = omega (arith, is.room, unseen-update g.num_vert v s.visited bound fresh)

  pub visit-visited_at : visit g s v ≡ some (visited_at s v m)
  unfolding visit push
  visit-visited_at =
      let b : ltb v g.num_vert ≡ true = ground arith in
      let c : ltb m g.num_vert ≡ true = ground (arith, fits) in
      rw (b, is.top, is.size, below_room g.num_vert m fits, top_index_suc m, c) refl

  pub visited_at-IsSearching : Reach g.adj src v → IsSearching g src (visited_at s v m) (suc m)
  visited_at-IsSearching reach = record {
    top = refl;
    size = is.size;
    room = omega (arith, is.room, unseen-update g.num_vert v s.visited bound fresh);
    stacked = λ i h. ground (arith, is.stacked i);
    source = ground (arith, is.source);
    sound = λ w e. elim (Bool-cases (v == w)) [
      | inl t ↦ let same : v ≡ w = ground arith in subst (Reach g.adj src) same reach
      | inr t ↦ is.sound w (ground arith)
    ];
    closed = λ u w e edge. elim (Bool-cases (v == u)) [
      | inl t ↦ inl (m, omega arith, ground arith)
      | inr t ↦ elim (is.closed u w (ground arith) edge) [
        | inl (i, low, at_i) ↦ inl (i, omega arith, ground arith)
        | inr seen ↦ inr (ground arith)
      ]
    ];
  }

-- The walk is in the list of the vertex on the top: what is left of it can be reached, and every
-- vertex of the list is left or marked.
pub record IsWalking (g : Graph) (src : ℕ) (p : List ℕ) (s : Search) (k : ℕ) : Type 0 where
  pub reached : (v : ℕ) → mem v p ≡ true → Reach g.adj src v × (v < g.num_vert)
  pub passed :
      (v : ℕ) → mem v (g.adj (s.stack.a k)) ≡ true → (mem v p ≡ true) ⊎ (s.visited v ≡ true)

-- The walk has come to the end of the list of the vertex on the top.
pub record IsWalked (g : Graph) (src : ℕ) (s t : Search) (k k' : ℕ) : Type 0 where
  pub searching : IsSearching g src t (suc k')
  pub finished : (v : ℕ) → mem v (g.adj (t.stack.a k')) ≡ true → t.visited v ≡ true
  pub work : unseen g.num_vert t.visited + k' ≡ unseen g.num_vert s.visited + k

tail-IsWalking :
    (g : Graph) (src v : ℕ) (p : List ℕ) (s : Search) (k : ℕ)
    → s.visited v ≡ true
    → IsWalking g src (v ∷ p) s k
    → IsWalking g src p s k
tail-IsWalking g src v p s k seen at_p = record {
  reached = λ w e. at_p.reached w (ground arith);
  passed = λ w e. elim (Bool-cases (w == v)) [
    | inl t ↦ let same : v ≡ w = ground arith in inr (ap s.visited (sym same) ∙ seen)
    | inr t ↦ ground (arith, at_p.passed w)
  ];
}

module _ (g : Graph) (src : ℕ) (within : IsWithin g.num_vert g.adj) where
  pub list-IsWalking :
      (s : Search) (k : ℕ) → IsSearching g src s (suc k) → IsWalking g src (g.adj (s.stack.a k)) s k
  list-IsWalking s k is =
      let (seen, bound) = is.stacked k (omega arith) in
      record {
        reached = λ v e. (step (is.sound (s.stack.a k) seen) e, within (s.stack.a k) v bound e);
        passed = λ v e. inl e;
      }

  -- The walk starts in the list of a vertex that was put on the top.
  top-IsWalking :
      (s : Search) (m v : ℕ)
      → IsSearching g src (visited_at s v m) (suc m)
      → IsWalking g src (g.adj v) (visited_at s v m) m
  top-IsWalking s m v is =
      let on_top : update s.stack.a m v m ≡ v = ground arith in
      subst (λ z. IsWalking g src (g.adj z) (visited_at s v m) m) on_top
        (list-IsWalking (visited_at s v m) m is)

  pub descend_loop_lem :
      (fuel : ℕ) (k : ℕ) (p : List ℕ) (s : Search)
      → IsSearching g src s (suc k)
      → IsWalking g src p s k
      → length p + steps_left g.num_vert g.adj s.visited < fuel
      → (t : Search) × (k' : ℕ) × (descend_loop fuel g p s ≡ some t) × IsWalked g src s t k k'
  unfolding descend_loop
  descend_loop_lem zero k p s is at_p enough = absurd (omega arith)
  descend_loop_lem (suc fuel) k [] s is at_p enough = (
    s,
    k,
    refl,
    record { searching = is; finished = λ v e. ground (arith, at_p.passed v); work = refl },
  )
  descend_loop_lem (suc fuel) k (v ∷ p) s is at_p enough =
      let (reach, bound) = at_p.reached v (ground arith) in
      let in_range : ltb v g.num_vert ≡ true = ground arith in
      elim (Bool-cases (s.visited v)) [
        | inl seen ↦
            let (t, k', e, walked) =
              descend_loop_lem fuel k p s is (tail-IsWalking g src v p s k seen at_p)
                (omega arith) in
            (t, k', rw (in_range, seen) e, walked)
        | inr fresh ↦
            let next = visited_at-IsSearching g src (suc k) v s is bound fresh reach in
            let (t, k', e, walked) =
              descend_loop_lem fuel (suc k) (g.adj v) (visited_at s v (suc k)) next
                (top-IsWalking s (suc k) v next)
                (omega (arith, steps_left-update g.num_vert v g.adj s.visited bound fresh)) in
            (
              t,
              k',
              rw (in_range, fresh, visit-visited_at g src (suc k) v s is bound fresh) e,
              record {
                searching = walked.searching;
                finished = walked.finished;
                work = omega (arith, walked.work, unseen-update g.num_vert v s.visited bound fresh);
              },
            )
      ]
