-- ===== src/Paging/Simulation.antt =====
-- The page replacement simulator: every access, and a whole simulation.
use c_programming_language.Base.{
  ℕ, zero, suc, ◌+◌, ◌%◌, ◌<◌, ◌≡◌, refl, inl, inr, false, Bool-cases, some, Option-cases, arith,
}
use c_programming_language.Base.Int.{pos, ◌≤ℤ◌}
use c_programming_language.Paging.{
  State, ram_size, num_pages, num_processes, num_accesses, initialize_system, remove_page,
  load_page, access_page, lru_frame, free_frame_loop, simulate_access, simulate_loop,
  simulate_accesses,
}
use c_programming_language.Paging.Consistent.{IsConsistent, proc_of, page_of}
use c_programming_language.Paging.Frames.{free_frame_loop-some, lru_frame_least}
use c_programming_language.Paging.Access.{
  Accessed, hit, faulted, victim_evicted, access_page-hit, access_page-free, access_page-full,
}

-- With consistent tables and a process and a page in range, `access_page` stays in the bounds of
-- all arrays; afterwards the tables are consistent again, the page is in memory and stamped with
-- the current time, one hit or one fault more is counted, and the time is unchanged.
pub access_page_lem :
    (rand : ℕ → ℕ) (p q : ℕ) (s : State)
    → IsConsistent s
    → p < num_processes
    → q < num_pages
    → (s' : State) × (access_page rand p q s ≡ some s') × Accessed s p q s'
access_page_lem rand p q s c hp hq = elim (Bool-cases (s.page_table p q).present) [
  | inl e ↦ let (run, a) = access_page-hit rand p q s c e in (hit rand p q s c, run, a)
  | inr e ↦ elim (Option-cases (free_frame_loop ram_size 0 s.free_frame_list)) [
    | inl n ↦
        let (run, a) = access_page-full rand p q s c hp hq e n in
        (load_page rand p q (lru_frame s) (victim_evicted rand p q s c hp hq e), run, a)
    | inr (f, h) ↦
        let (run, a) = access_page-free rand p q s c hp hq e f h in
        (load_page rand p q f (faulted s), run, a)
  ]
]

-- What a page fault in a full memory does to the frames and to the pages.
pub record Evicted (s : State) (p q f : ℕ) (s' : State) : Type 0 where
  pub least : (g : ℕ) → g < ram_size → s.last_access_time f ≤ℤ s.last_access_time g
  pub gone : (s'.page_table (proc_of s f) (page_of s f)).present ≡ false
  pub loaded : (s'.page_table p q).frame_number ≡ pos f
  pub others :
      (a b : ℕ)
      → ¬ ((a ≡ p) × (b ≡ q))
      → ¬ ((a ≡ proc_of s f) × (b ≡ page_of s f))
      → s'.page_table a b ≡ s.page_table a b

-- A page fault while no frame is free replaces the page of a frame with the least access time of
-- all; that page leaves memory, the new page takes its frame, and every other page table entry is
-- unchanged.
pub access_page_evicts_least :
    (rand : ℕ → ℕ) (p q : ℕ) (s : State)
    → IsConsistent s
    → p < num_processes
    → q < num_pages
    → (s.page_table p q).present ≡ false
    → ((f : ℕ) → f < ram_size → s.free_frame_list f ≡ false)
    → (s' : State) × (access_page rand p q s ≡ some s') × Evicted s p q (lru_frame s) s'
unfolding load_page remove_page
access_page_evicts_least rand p q s c hp hq e full =
    let f = lru_frame s in
    let (inside, least) = lru_frame_least s in
    let owned = c.frames f inside (full f inside) in
    elim (Option-cases (free_frame_loop ram_size 0 s.free_frame_list)) [
      | inr (g, h) ↦
          let (free, low, high) = free_frame_loop-some ram_size 0 s.free_frame_list h in
          cc (full g high, free)
      | inl n ↦ (
        load_page rand p q f (victim_evicted rand p q s c hp hq e),
        (access_page-full rand p q s c hp hq e n).0,
        record {
          least = least;
          gone = ground (arith, owned);
          loaded = ground arith;
          others = λ a b x y. ground (arith);
        },
      )
    ]

pub initialize_system-IsConsistent : IsConsistent initialize_system
unfolding initialize_system
initialize_system-IsConsistent = record { pages = λ p q e. cc; frames = λ f h e. cc }

-- one round draws a process and a page in range
simulate_access_lem :
    (rand : ℕ → ℕ) (s : State)
    → IsConsistent s
    → (s' : State) × (simulate_access rand s ≡ some s')
      × IsConsistent s'
      × (s'.page_hit_count + s'.page_fault_count ≡ s.page_hit_count + s.page_fault_count + 1)
      × (s'.current_time ≡ s.current_time + 1)
unfolding simulate_access
simulate_access_lem rand s c =
    let ticked = record s { drawn = s.drawn + 2; current_time = s.current_time + 1 } in
    let later : IsConsistent ticked = record {
      pages = λ a b e. ground (arith, c.pages a b);
      frames = λ f h u. ground (arith, c.frames f h);
    } in
    let (s', run, a) =
      access_page_lem rand (rand s.drawn % num_processes) (rand (s.drawn + 1) % num_pages) ticked
        later (omega arith) (omega arith) in
    (s', run, a.consistent, a.counted, a.clock)

simulate_loop_lem :
    (rand : ℕ → ℕ) (k : ℕ) (s : State)
    → IsConsistent s
    → (s' : State) × (simulate_loop rand k s ≡ some s')
      × IsConsistent s'
      × (s'.page_hit_count + s'.page_fault_count ≡ s.page_hit_count + s.page_fault_count + k)
      × (s'.current_time ≡ s.current_time + k)
unfolding simulate_loop
simulate_loop_lem rand zero s c = (s, refl, c, omega arith, omega arith)
simulate_loop_lem rand (suc k) s c =
    let (t, run, ct, count, clock) = simulate_access_lem rand s c in
    let (u, runs, cu, counts, clocks) = simulate_loop_lem rand k t ct in
    (u, rw run runs, cu, omega arith, omega arith)

-- Whatever numbers `rand` returns, the simulation from the initial state runs without an index out
-- of bounds, and ends with consistent tables and with hits and faults that add up to the number of
-- accesses.
pub simulate_accesses_lem :
    (rand : ℕ → ℕ)
    → (s : State) × (simulate_accesses rand initialize_system ≡ some s)
      × IsConsistent s
      × (s.page_hit_count + s.page_fault_count ≡ num_accesses)
unfolding simulate_accesses initialize_system
simulate_accesses_lem rand =
    let (s, run, c, count, clock) =
      simulate_loop_lem rand num_accesses initialize_system initialize_system-IsConsistent in
    (s, run, c, count)
