-- ===== src/Reachable.antt =====
-- Walks along adjacency lists, and the count of the vertices that a search has not seen, for the
-- searches of DataStructures/BFS/main.c and DataStructures/DFS/main.c.
use c_programming_language.Base.{
  ℕ, zero, suc, ◌+◌, ◌≤◌, ◌<◌, ◌≡◌, refl, inl, inr, Bool, true, false, Bool-cases, List, mem,
  update, length, ap, ◌==◌, if◌then◌else◌, arith,
}

-- `v` is at the end of a walk from `src`.
pub data Reach (adj : ℕ → List ℕ) (src : ℕ) : ℕ → Type 0 where
  here : Reach adj src src
  step : {u v : ℕ} → Reach adj src u → mem v (adj u) ≡ true → Reach adj src v

-- Every edge of a vertex below `n` leads to one below `n`.
abbrev pub IsWithin : ℕ → (ℕ → List ℕ) → Type 0
IsWithin n adj = (u v : ℕ) → u < n → mem v (adj u) ≡ true → v < n

-- how many vertices below `n` are not marked
abbrev pub unseen : ℕ → (ℕ → Bool) → ℕ
unseen zero seen = 0
unseen (suc n) seen = (if seen n then 0 else 1) + unseen n seen

unseen_same : (n v : ℕ) (seen : ℕ → Bool) → n ≤ v → unseen n (update seen v true) ≡ unseen n seen
unseen_same zero v seen h = refl
unseen_same (suc n) v seen h = ground (arith, unseen_same n v seen)

pub unseen-update :
    (n v : ℕ) (seen : ℕ → Bool)
    → v < n
    → seen v ≡ false
    → suc (unseen n (update seen v true)) ≡ unseen n seen
unseen-update zero v seen h e = absurd (omega arith)
unseen-update (suc n) v seen h e = elim (Bool-cases (v == n)) [
  | inl t ↦ ground (arith, unseen_same n v seen)
  | inr t ↦ ground (arith, unseen-update n v seen)
]

pub unseen_none : (n : ℕ) → unseen n (λ v. false) ≡ n
unseen_none zero = refl
unseen_none (suc n) = omega (arith, unseen_none n)

-- The steps that the lists of the unmarked vertices below `n` can take: one for each vertex and one
-- for each edge.
abbrev pub steps_left : ℕ → (ℕ → List ℕ) → (ℕ → Bool) → ℕ
steps_left zero adj seen = 0
steps_left (suc n) adj seen = (if seen n then 0 else suc (length (adj n))) + steps_left n adj seen

-- all vertices and edges
abbrev pub size_of : ℕ → (ℕ → List ℕ) → ℕ
size_of n adj = steps_left n adj (λ v. false)

steps_left_same :
    (n v : ℕ) (adj : ℕ → List ℕ) (seen : ℕ → Bool)
    → n ≤ v
    → steps_left n adj (update seen v true) ≡ steps_left n adj seen
steps_left_same zero v adj seen h = refl
steps_left_same (suc n) v adj seen h = ground (arith, steps_left_same n v adj seen)

pub steps_left-update :
    (n v : ℕ) (adj : ℕ → List ℕ) (seen : ℕ → Bool)
    → v < n
    → seen v ≡ false
    → suc (length (adj v)) + steps_left n adj (update seen v true) ≡ steps_left n adj seen
steps_left-update zero v adj seen h e = absurd (omega arith)
steps_left-update (suc n) v adj seen h e = elim (Bool-cases (v == n)) [
  | inl t ↦
      let same : v ≡ n = ground arith in
      let d : length (adj v) ≡ length (adj n) = ap (λ z. length (adj z)) same in
      ground (arith, steps_left_same n v adj seen)
  | inr t ↦ ground (arith, steps_left-update n v adj seen)
]

steps_left-le : (n : ℕ) (adj : ℕ → List ℕ) (seen : ℕ → Bool) → steps_left n adj seen ≤ size_of n adj
steps_left-le zero adj seen = omega arith
steps_left-le (suc n) adj seen = ground (arith, steps_left-le n adj seen)

-- A marked vertex and its edges are not counted.
pub steps_left_marked :
    (n v : ℕ) (adj : ℕ → List ℕ) (seen : ℕ → Bool)
    → v < n
    → seen v ≡ true
    → suc (length (adj v)) + steps_left n adj seen ≤ size_of n adj
steps_left_marked zero v adj seen h e = absurd (omega arith)
steps_left_marked (suc n) v adj seen h e = elim (Bool-cases (v == n)) [
  | inl t ↦
      let same : v ≡ n = ground arith in
      let d : length (adj v) ≡ length (adj n) = ap (λ z. length (adj z)) same in
      ground (arith, steps_left-le n adj seen)
  | inr t ↦ ground (arith, steps_left_marked n v adj seen)
]
