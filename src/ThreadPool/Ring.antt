-- ===== src/ThreadPool/Ring.antt =====
-- The entries of a ring buffer from a place on, and what a write behind them or a read in front does.
use c_programming_language.Base.{
  ℕ, zero, suc, ◌+◌, ◌%◌, ◌<◌, ◌≡◌, ◌≢◌, List, [], ◌∷◌, ◌++◌, arith, update,
}
use c_programming_language.ThreadPool.{max_queue}

-- `k` entries from `front` on, round the end of the buffer
abbrev pub window : ℕ → ℕ → (ℕ → ℕ) → List ℕ
window zero front f = []
window (suc k) front f = f front ∷ window k ((front + 1) % max_queue) f

-- A write behind the last entry makes the window longer by the value.
pub window-snoc :
    (k front r v : ℕ) (f : ℕ → ℕ)
    → front < max_queue
    → k < max_queue
    → r ≡ (front + k) % max_queue
    → window (suc k) front (update f r v) ≡ window k front f ++ v ∷ []
window-snoc zero front r v f h l e = ground arith
window-snoc (suc k) front r v f h l e =
    let behind : window (suc k) ((front + 1) % max_queue) (update f r v)
        ≡ window k ((front + 1) % max_queue) f ++ v ∷ [] =
      window-snoc k ((front + 1) % max_queue) r v f (omega arith) (omega arith) (omega arith) in
    let other : front ≢ r = omega arith in ground arith
