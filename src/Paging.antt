-- ===== src/Paging.antt =====
-- MemoryManagement/AlgorithmForLRU_Page_Replacement_Simulator.c: pages of processes in the frames of
-- a small memory, the least recently used one replaced. (The repository holds a second file with
-- the same text.) The globals are one record, an array is a function of its index, and -1 is
-- `negsuc 0`. `none` is an index out of bounds. `rand` is a stream of numbers, of which `drawn` have
-- been taken. Prints are left out, with the frees of `cleanup_system`.
pub mod Consistent
pub mod Frames
pub mod Access
pub mod Simulation
mod Tests
use c_programming_language.Base.{
  ℕ, zero, suc, ◌+◌, ◌%◌, Bool, true, false, ◌&&◌, Option, none, some, ◌>>=◌, ltb, ◌==◌,
  if◌then◌else◌,
}
pub use c_programming_language.Base.Int.{index}
use c_programming_language.Base.Int.{ℤ, pos, negsuc, ltb_ℤ}

abbrev pub ram_size : ℕ
ram_size = 4

abbrev pub num_pages : ℕ
num_pages = 8

abbrev pub num_processes : ℕ
num_processes = 2

abbrev pub num_accesses : ℕ
num_accesses = 20

pub record PageTableEntry : Type 0 where
  pub frame_number : ℤ
  pub present : Bool
  pub modified : Bool
  pub last_access : ℤ

pub record State : Type 0 where
  pub page_table : ℕ → ℕ → PageTableEntry
  pub ram_owner_proc : ℕ → ℤ
  pub ram_owner_page : ℕ → ℤ
  pub last_access_time : ℕ → ℤ
  pub free_frame_list : ℕ → Bool
  pub current_time : ℕ
  pub page_fault_count : ℕ
  pub page_hit_count : ℕ
  pub drawn : ℕ

-- an assignment to an array element
abbrev pub update {ℓ} : {A : Type ℓ} → (ℕ → A) → ℕ → A → ℕ → A
update f i v j = if i == j then v else f j

abbrev pub update_entry : (ℕ → ℕ → PageTableEntry) → ℕ → ℕ → PageTableEntry → ℕ → ℕ → PageTableEntry
update_entry t p q e a b = if p == a && q == b then e else t a b

unfoldable pub initialize_system : State
initialize_system = record {
  page_table = λ p q. record {
    frame_number = negsuc 0;
    present = false;
    modified = false;
    last_access = negsuc 0;
  };
  ram_owner_proc = λ f. negsuc 0;
  ram_owner_page = λ f. negsuc 0;
  last_access_time = λ f. negsuc 0;
  free_frame_list = λ f. true;
  current_time = 0;
  page_fault_count = 0;
  page_hit_count = 0;
  drawn = 0;
}

-- The search for a free frame from frame `f` on, with `k` frames left; `none` is the -1 that
-- `free_frame` keeps.
unfoldable pub free_frame_loop : ℕ → ℕ → (ℕ → Bool) → Option ℕ
free_frame_loop zero f free = none
free_frame_loop (suc k) f free =
    let rest = free_frame_loop k (f + 1) free in if free f then some f else rest

-- The search for the frame with the least time, from frame `f` on.
unfoldable pub lru_frame_loop : ℕ → ℕ → (ℕ → ℤ) → ℕ → ℕ
lru_frame_loop zero f time lru = lru
lru_frame_loop (suc k) f time lru =
    lru_frame_loop k (f + 1) time (if ltb_ℤ (time f) (time lru) then f else lru)

unfoldable pub lru_frame : State → ℕ
unfolding lru_frame_loop
lru_frame s = lru_frame_loop 3 1 s.last_access_time 0

-- the two assignments to the victim's page table entry
unfoldable pub remove_page : ℕ → ℕ → State → State
remove_page p q s = record s {
  page_table =
      update_entry s.page_table p q
        (record (s.page_table p q) { present = false; frame_number = negsuc 0 });
}

-- the branch of `handle_page_fault` for a full memory, which reads the victim's entry
unfoldable pub evict : ℕ → State → Option State
unfolding remove_page
evict f s = do
  victim_proc ← index num_processes (s.ram_owner_proc f)
  victim_page ← index num_pages (s.ram_owner_page f)
  some (remove_page victim_proc victim_page s)

-- the assignments that load the page into the frame
unfoldable pub load_page : (ℕ → ℕ) → ℕ → ℕ → ℕ → State → State
load_page rand p q f s = record s {
  page_table = update_entry s.page_table p q (record {
    frame_number = pos f;
    present = true;
    modified = (rand s.drawn % 2) == 1;
    last_access = pos s.current_time;
  });
  drawn = s.drawn + 1;
  ram_owner_proc = update s.ram_owner_proc f (pos p);
  ram_owner_page = update s.ram_owner_page f (pos q);
  last_access_time = update s.last_access_time f (pos s.current_time);
  free_frame_list = update s.free_frame_list f false;
}

-- where the page goes, by the outcome of the search for a free frame
unfoldable pub replace : (ℕ → ℕ) → ℕ → ℕ → Option ℕ → State → Option State
replace rand p q (some f) s = some (load_page rand p q f s)
replace rand p q none s = evict (lru_frame s) s >>= λ s'. some (load_page rand p q (lru_frame s) s')

unfoldable pub handle_page_fault : (ℕ → ℕ) → ℕ → ℕ → State → Option State
unfolding replace free_frame_loop
handle_page_fault rand p q s =
    replace rand p q (free_frame_loop ram_size 0 s.free_frame_list)
      (record s { page_fault_count = s.page_fault_count + 1 })

unfoldable pub access_page : (ℕ → ℕ) → ℕ → ℕ → State → Option State
unfolding handle_page_fault
access_page rand p q s =
    if (s.page_table p q).present
    then (do
      f ← index ram_size (s.page_table p q).frame_number
      some (record s {
        page_hit_count = s.page_hit_count + 1;
        page_table =
            update_entry s.page_table p q
              (record (s.page_table p q) { last_access = pos s.current_time });
        last_access_time = update s.last_access_time f (pos s.current_time);
      }))
    else handle_page_fault rand p q s

-- one round of `simulate_accesses`
unfoldable pub simulate_access : (ℕ → ℕ) → State → Option State
unfolding access_page
simulate_access rand s =
    access_page rand (rand s.drawn % num_processes) (rand (s.drawn + 1) % num_pages)
      (record s { drawn = s.drawn + 2; current_time = s.current_time + 1 })

unfoldable pub simulate_loop : (ℕ → ℕ) → ℕ → State → Option State
unfolding simulate_access
simulate_loop rand zero s = some s
simulate_loop rand (suc k) s = simulate_access rand s >>= simulate_loop rand k

unfoldable pub simulate_accesses : (ℕ → ℕ) → State → Option State
unfolding simulate_loop
simulate_accesses rand = simulate_loop rand num_accesses
