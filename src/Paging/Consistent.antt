-- ===== src/Paging/Consistent.antt =====
-- The page replacement simulator: the invariant of its tables.
use c_programming_language.Base.{ℕ, ◌<◌, ◌≡◌, true, false}
use c_programming_language.Base.Int.{pos, pos_part, ◌≤ℤ◌}
use c_programming_language.Paging.{State, ram_size, num_pages, num_processes}

-- The frame that a page table entry names, and the owner that a frame names.
abbrev pub frame_of : State → ℕ → ℕ → ℕ
frame_of s p q = pos_part (s.page_table p q).frame_number

abbrev pub proc_of : State → ℕ → ℕ
proc_of s f = pos_part (s.ram_owner_proc f)

abbrev pub page_of : State → ℕ → ℕ
page_of s f = pos_part (s.ram_owner_page f)

-- a page in memory: its frame is in use and names the page as its owner
pub record IsLoaded (s : State) (p q : ℕ) : Type 0 where
  pub frame : (s.page_table p q).frame_number ≡ pos (frame_of s p q)
  pub inside : frame_of s p q < ram_size
  pub used : s.free_frame_list (frame_of s p q) ≡ false
  pub proc : s.ram_owner_proc (frame_of s p q) ≡ pos p
  pub page : s.ram_owner_page (frame_of s p q) ≡ pos q

-- a frame in use: it names a page that is present, in this frame, with the same time
pub record IsOwned (s : State) (f : ℕ) : Type 0 where
  pub proc : s.ram_owner_proc f ≡ pos (proc_of s f)
  pub proc_bound : proc_of s f < num_processes
  pub page : s.ram_owner_page f ≡ pos (page_of s f)
  pub page_bound : page_of s f < num_pages
  pub present : (s.page_table (proc_of s f) (page_of s f)).present ≡ true
  pub back : (s.page_table (proc_of s f) (page_of s f)).frame_number ≡ pos f
  pub time : (s.page_table (proc_of s f) (page_of s f)).last_access ≡ s.last_access_time f
  pub past : s.last_access_time f ≤ℤ pos s.current_time

-- Page tables and frames agree.
pub record IsConsistent (s : State) : Type 0 where
  pub pages : (p q : ℕ) → (s.page_table p q).present ≡ true → IsLoaded s p q
  pub frames : (f : ℕ) → f < ram_size → s.free_frame_list f ≡ false → IsOwned s f
