-- ===== src/Paging/Access.antt =====
-- The page replacement simulator: an access keeps the tables consistent, stays in bounds and leaves
-- the page in memory.
use c_programming_language.Base.{ℕ, ◌+◌, ◌<◌, ◌≡◌, ◌≢◌, refl, true, false, none, some, arith}
use c_programming_language.Base.Int.{ℤ, pos}
use c_programming_language.Paging.{
  State, ram_size, num_pages, num_processes, update, update_entry, index, remove_page, evict,
  load_page, access_page, lru_frame, free_frame_loop,
}
use c_programming_language.Paging.Consistent.{
  IsLoaded, IsOwned, IsConsistent, proc_of, page_of, frame_of,
}
use c_programming_language.Paging.Frames.{
  free_frame_loop-some, free_frame_loop-none, lru_frame_least,
}

index-some : {z : ℤ} {i : ℕ} (n : ℕ) → z ≡ pos i → i < n → index n z ≡ some i
index-some n e h = ground arith

-- Every frame but `f` is owned, and no page is in `f`: the state in which a page is loaded into `f`.
pub record IsReady (s : State) (f : ℕ) : Type 0 where
  pub inside : f < ram_size
  pub pages : (p q : ℕ) → (s.page_table p q).present ≡ true → IsLoaded s p q × (frame_of s p q ≢ f)
  pub frames : (g : ℕ) → g < ram_size → g ≢ f → s.free_frame_list g ≡ false → IsOwned s g

module _ (s : State) (c : IsConsistent s) where
  -- a free frame holds no page
  IsReady-of_free : (f : ℕ) → f < ram_size → s.free_frame_list f ≡ true → IsReady s f
  IsReady-of_free f inside free = record {
    inside = inside;
    pages = λ p q e. (c.pages p q e, λ same. ground (arith, (c.pages p q e).used));
    frames = λ g h other used. c.frames g h used;
  }

  module _ (f : ℕ) (inside : f < ram_size) (used : s.free_frame_list f ≡ false) where
    abbrev evicted : State
    evicted = remove_page (proc_of s f) (page_of s f) s

    -- the owner that a used frame names is in the bounds of the tables
    evict-some : evict f s ≡ some evicted
    unfolding evict
    evict-some =
        let o = c.frames f inside used in
        rw (index-some num_processes o.proc o.proc_bound, index-some num_pages o.page o.page_bound)

    IsReady-of_evict : IsReady evicted f
    unfolding remove_page
    IsReady-of_evict = record {
      inside = inside;
      pages = λ p q e. ground (arith, c.pages p q, c.frames f);
      frames = λ g h other u. ground (arith, c.frames g, c.frames f);
    }

-- The state after a page is loaded into a frame that is ready for it.
module _ (rand : ℕ → ℕ) (p q f : ℕ) (s : State) (r : IsReady s f) (hp : p < num_processes)
    (hq : q < num_pages) (absent : (s.page_table p q).present ≡ false) where
  load_page-IsConsistent : IsConsistent (load_page rand p q f s)
  unfolding load_page
  load_page-IsConsistent = record {
    pages = λ a b e. ground (arith, r.pages a b, r.inside);
    frames = λ g h used. ground (arith, r.frames g h);
  }

-- What an access of page `q` of process `p` has to leave behind.
pub record Accessed (s : State) (p q : ℕ) (s' : State) : Type 0 where
  pub consistent : IsConsistent s'
  pub present : (s'.page_table p q).present ≡ true
  pub stamped : (s'.page_table p q).last_access ≡ pos s.current_time
  pub counted : s'.page_hit_count + s'.page_fault_count ≡ s.page_hit_count + s.page_fault_count + 1
  pub clock : s'.current_time ≡ s.current_time

-- the state in which the faulting page is loaded
abbrev pub faulted : State → State
faulted s = record s { page_fault_count = s.page_fault_count + 1 }

lru_frame-faulted : (s : State) → lru_frame (faulted s) ≡ lru_frame s
unfolding lru_frame
lru_frame-faulted s = refl

module _ (rand : ℕ → ℕ) (p q : ℕ) (s : State) (c : IsConsistent s) where
  faulted-IsConsistent : IsConsistent (faulted s)
  faulted-IsConsistent = record {
    pages = λ a b e. ground (arith, c.pages a b);
    frames = λ f h u. ground (arith, c.frames f h);
  }

  -- A hit stays in bounds and stamps the page and its frame with the time.
  abbrev pub hit : State
  hit = record s {
    page_hit_count = s.page_hit_count + 1;
    page_table =
        update_entry s.page_table p q
          (record (s.page_table p q) { last_access = pos s.current_time });
    last_access_time = update s.last_access_time (frame_of s p q) (pos s.current_time);
  }

  pub access_page-hit :
      (s.page_table p q).present ≡ true → (access_page rand p q s ≡ some hit) × Accessed s p q hit
  unfolding access_page
  access_page-hit e =
      let l = c.pages p q e in
      (
        rw (e, index-some ram_size l.frame l.inside),
        record {
          consistent = record {
            pages = λ a b h. ground (arith, c.pages a b);
            frames = λ f h used. ground (arith, c.frames f h, c.pages p q);
          };
          present = ground arith;
          stamped = ground arith;
          counted = omega arith;
          clock = refl;
        },
      )

  -- A miss while a frame is free loads the page into that frame.
  module _ (hp : p < num_processes) (hq : q < num_pages)
      (absent : (s.page_table p q).present ≡ false) where
    pub access_page-free :
        (f : ℕ)
        → free_frame_loop ram_size 0 s.free_frame_list ≡ some f
        → (access_page rand p q s ≡ some (load_page rand p q f (faulted s)))
          × Accessed s p q (load_page rand p q f (faulted s))
    unfolding access_page load_page
    access_page-free f e =
        let (free, low, high) = free_frame_loop-some ram_size 0 s.free_frame_list e in
        let ready = IsReady-of_free (faulted s) faulted-IsConsistent f high free in
        (
          rw (absent, e),
          record {
            consistent = load_page-IsConsistent rand p q f (faulted s) ready hp hq absent;
            present = ground arith;
            stamped = ground arith;
            counted = omega arith;
            clock = refl;
          },
        )

    -- A miss in a full memory evicts the page of the least recently used frame.
    abbrev pub victim_evicted : State
    victim_evicted = remove_page (proc_of s (lru_frame s)) (page_of s (lru_frame s)) (faulted s)

    pub access_page-full :
        free_frame_loop ram_size 0 s.free_frame_list ≡ none
        → (access_page rand p q s ≡ some (load_page rand p q (lru_frame s) victim_evicted))
          × Accessed s p q (load_page rand p q (lru_frame s) victim_evicted)
    unfolding access_page remove_page load_page
    access_page-full e =
        let (inside, least) = lru_frame_least s in
        let used =
          free_frame_loop-none ram_size 0 s.free_frame_list e (lru_frame s) (omega arith) inside in
        let fc = faulted-IsConsistent in
        let ready = IsReady-of_evict (faulted s) fc (lru_frame s) inside used in
        (
          rw (absent, e, lru_frame-faulted s, evict-some (faulted s) fc (lru_frame s) inside used),
          record {
            consistent =
                load_page-IsConsistent rand p q (lru_frame s) victim_evicted ready hp hq
                  (ground arith);
            present = ground arith;
            stamped = ground arith;
            counted = omega arith;
            clock = refl;
          },
        )
