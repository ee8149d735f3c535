-- ===== src/ThreadedQueue/Schedules.antt =====
-- Reachable states of ThreadedQueue.c by evaluation: the threads make their steps in a given order,
-- each with the address that malloc returns if the step calls it.
use native.Mathlib.Decide.{dec_lt, ℕ_discrete}
use c_programming_language.Base.{
  ℕ, ◌<◌, ◌≡◌, refl, inl, inr, Bool, true, false, Option, none, some, List, [], ◌∷◌, update,
}
use c_programming_language.Memory.{Ptr, null}
use c_programming_language.ThreadedQueue.{Shared, Outcome, moves, fgq_init}
use c_programming_language.ThreadedQueue.State.{
  step, Fresh, System, pick, Reach, start, later, start_pc,
}

pub record Run (producers items n : ℕ) : Type 0 where
  pub last : System
  pub reach : Reach producers items n last

unfoldable pub init :
    (producers items n dummy : ℕ) {m : Shared}
    → fgq_init dummy true true true ≡ some m
    → Run producers items n
init producers items n dummy {m} e = record {
  last = record { mem = m; pc = start_pc producers };
  reach = start dummy e;
}

is_fresh :
    (m : Shared) (r : Ptr)
    → Dec (r ≡ null)
    → (b : Bool) → m.live r ≡ b
    → (c : Option ℕ) → m.cells r ≡ c
    → Option (Fresh m r)
is_fresh m r (yes e) b p c q = some (inl e)
is_fresh m r (no e) false p none q = some (inr (p, q))
is_fresh m r (no e) _ p _ q = none

module _ {producers items n : ℕ} where
  advance :
      (u : Run producers items n) (i : ℕ) (r : Ptr)
      → Dec (i < n)
      → Option (Fresh u.last.mem r)
      → (o : Outcome) → step producers items i r u.last.mem (u.last.pc i) ≡ o
      → Run producers items n
  advance u i r (yes h) (some f) (moves m p) e = record {
    last = record { mem = m; pc = update u.last.pc i p };
    reach = later u.reach (pick i r h f e);
  }
  advance u i r _ _ _ e = u

  turn : Run producers items n → ℕ → Ptr → Run producers items n
  turn u i r =
      let m = u.last.mem in
      advance u i r (dec_lt i n) (is_fresh m r (ℕ_discrete r null) (m.live r) refl (m.cells r) refl)
        (step producers items i r m (u.last.pc i)) refl

  unfoldable pub run : Run producers items n → List (ℕ × Ptr) → Run producers items n
  unfolding advance turn is_fresh dec_lt ℕ_discrete step
  run u [] = u
  run u ((i, r) ∷ xs) = run (turn u i r) xs
