-- ===== src/Paging/Tests.antt =====
-- The page replacement simulator: runs, and the theorems at concrete states.
use c_programming_language.Base.{
  ◌+◌, ◌*◌, ◌≡◌, refl, true, false, some, map, [], ◌∷◌, ltb, ◌==◌, ◌&&◌, ◌>>=◌, if◌then◌else◌,
  arith,
}
use c_programming_language.Base.Int.{pos, negsuc}
use c_programming_language.Paging.{
  State, initialize_system, access_page, lru_frame, evict, load_page, remove_page,
  simulate_accesses,
}
use c_programming_language.Paging.Consistent.{IsConsistent}
use c_programming_language.Paging.Access.{Accessed}
use c_programming_language.Paging.Simulation.{
  Evicted, initialize_system-IsConsistent, access_page_lem, access_page_evicts_least,
  simulate_accesses_lem,
}

-- pages 0 to 3 of process 0 in the frames 0 to 3, accessed in this order
abbrev full : State
full = record {
  page_table = λ p q.
      if p == 0 && ltb q 4
      then record {
        frame_number = pos q;
        present = true;
        modified = false;
        last_access = pos (q + 1);
      }
      else record {
        frame_number = negsuc 0;
        present = false;
        modified = false;
        last_access = negsuc 0;
      };
  ram_owner_proc = λ f. pos 0;
  ram_owner_page = λ f. pos f;
  last_access_time = λ f. pos (f + 1);
  free_frame_list = λ f. false;
  current_time = 5;
  page_fault_count = 4;
  page_hit_count = 0;
  drawn = 0;
}

full-IsConsistent : IsConsistent full
full-IsConsistent = record { pages = λ p q e. ground arith; frames = λ f h e. ground arith }

access_page_lem_example :
    (s : State) × (access_page (λ n. n) 1 3 initialize_system ≡ some s)
    × Accessed initialize_system 1 3 s
access_page_lem_example =
    access_page_lem (λ n. n) 1 3 initialize_system initialize_system-IsConsistent (omega arith)
      (omega arith)

access_page_evicts_least_example :
    (s : State) × (access_page (λ n. n) 1 3 full ≡ some s) × Evicted full 1 3 (lru_frame full) s
access_page_evicts_least_example =
    access_page_evicts_least (λ n. n) 1 3 full full-IsConsistent (omega arith) (omega arith) refl
      (λ f h. refl)

simulate_accesses_lem_example :
    (s : State) × (simulate_accesses (λ n. n * 7) initialize_system ≡ some s)
    × IsConsistent s
    × (s.page_hit_count + s.page_fault_count ≡ 20)
simulate_accesses_lem_example = simulate_accesses_lem (λ n. n * 7)

-- frame 0 is the least recently used one
full_victim : lru_frame full ≡ 0
unfolding lru_frame
full_victim = refl

-- the owners of the frames after the fault
full_owners :
    (access_page (λ n. n) 1 3 full >>= λ s. some (map s.ram_owner_page (0 ∷ 1 ∷ 2 ∷ 3 ∷ [])))
    ≡ some (pos 3 ∷ pos 1 ∷ pos 2 ∷ pos 3 ∷ [])
unfolding access_page evict load_page remove_page lru_frame
full_owners = refl
