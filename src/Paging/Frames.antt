-- ===== src/Paging/Frames.antt =====
-- The page replacement simulator: the searches for a free frame and for the least recently used.
use native.Mathlib.Decide.{ℕ_discrete}
use c_programming_language.Base.{
  ℕ, zero, suc, ◌+◌, ◌≤◌, ◌<◌, ◌≡◌, Bool, true, false, none, some, if◌then◌else◌, arith,
}
use native.Mathlib.Decide.{ℕ_discrete}
use c_programming_language.Base.Int.{ℤ, ◌≤ℤ◌, ltb_ℤ}
use native.Mathlib.Decide.{ℕ_discrete}
use c_programming_language.Paging.{State, ram_size, free_frame_loop, lru_frame_loop, lru_frame}

-- A frame that the search returns is free and lies in the range.
pub free_frame_loop-some :
    (k f : ℕ) (free : ℕ → Bool) {g : ℕ}
    → free_frame_loop k f free ≡ some g
    → (free g ≡ true) × (f ≤ g) × (g < f + k)
unfolding free_frame_loop
free_frame_loop-some zero f free e = cc
free_frame_loop-some (suc k) f free {g} e =
    ground (arith, free_frame_loop-some k (f + 1) free {g = g})

-- Where the search returns none, no frame of the range is free.
pub free_frame_loop-none :
    (k f : ℕ) (free : ℕ → Bool)
    → free_frame_loop k f free ≡ none
    → (g : ℕ) → f ≤ g
    → g < f + k
    → free g ≡ false
unfolding free_frame_loop
free_frame_loop-none zero f free e g low high = absurd (omega arith)
free_frame_loop-none (suc k) f free e g low high = elim (ℕ_discrete f g) [
  | yes same ↦ rw (← same) (ground arith)
  | no other ↦ free_frame_loop-none k (f + 1) free (ground arith) g (omega arith) (omega arith)
]

-- The search for the least time keeps to the frames below `n`, and none that it has passed has a
-- lesser time.
lru_frame_loop_least :
    (k f : ℕ) (time : ℕ → ℤ) (lru : ℕ)
    → lru < f
    → ((g : ℕ) → g < f → time lru ≤ℤ time g)
    → (lru_frame_loop k f time lru < f + k)
      × ((g : ℕ) → g < f + k → time (lru_frame_loop k f time lru) ≤ℤ time g)
unfolding lru_frame_loop
lru_frame_loop_least zero f time lru inside least = (omega arith, λ g h. least g (omega arith))
lru_frame_loop_least (suc k) f time lru inside least =
    let next : ℕ = if ltb_ℤ (time f) (time lru) then f else lru in
    let (a, b) = lru_frame_loop_least k (f + 1) time next (ground arith) (λ g h.
      elim (ℕ_discrete g f) [
        | yes same ↦ rw same (ground arith)
        | no other ↦ ground (arith, least g)
      ]) in
    (omega arith, λ g h. b g (omega arith))

-- `lru_frame` is a frame with the least access time of all.
pub lru_frame_least :
    (s : State)
    → (lru_frame s < ram_size)
      × ((f : ℕ) → f < ram_size → s.last_access_time (lru_frame s) ≤ℤ s.last_access_time f)
unfolding lru_frame
lru_frame_least s = lru_frame_loop_least 3 1 s.last_access_time 0 (omega arith) (λ g h. grind arith)
