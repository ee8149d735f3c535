-- ===== src/ThreadedQueue/Facts.antt =====
-- What the shape of the queue of ThreadedQueue.c says about single nodes.
use c_programming_language.Base.{
  ℕ, ◌≤◌, ◌<◌, ◌≡◌, ◌≢◌, sym, ap, ◌∙◌, true, List, ◌∷◌, map, arith, update,
}
use c_programming_language.Base.Threads.{count, le-total}
use c_programming_language.Memory.{Ptr, null}
use c_programming_language.ThreadedQueue.{Shared, Pc}
use c_programming_language.ThreadedQueue.Chain.{last, tail_of, count-last, map-update, rest-cons}
use c_programming_language.ThreadedQueue.State.{Fresh}
use c_programming_language.ThreadedQueue.Shape.{node_of, Shape}

abbrev pub Present : Ptr → Type 0
Present v = v ≢ null

module _ {n : ℕ} {m : Shared} {pc : ℕ → Pc} {rest : List Ptr} (s : Shape n m pc rest) where
  -- A node that a thread has for itself is allocated and is not in the queue.
  pub own_node :
      (i : ℕ) (p : Ptr)
      → i < n
      → node_of p (pc i) ≡ 1
      → (m.live p ≡ true) × (count p (m.head ∷ rest) ≡ 0)
  own_node i p h e = ground (arith, s.nodes p, le-total (node_of p) n pc i h)

  -- A node in the queue is allocated, and stands there once.
  pub queued :
      (p : Ptr) → 1 ≤ count p (m.head ∷ rest) → (m.live p ≡ true) × (count p (m.head ∷ rest) ≡ 1)
  queued p h = ground (arith, s.nodes p)

  pub last_queued :
      (m.live (last m.head rest) ≡ true) × (count (last m.head rest) (m.head ∷ rest) ≡ 1)
  last_queued = queued (last m.head rest) (count-last m.head rest)

  pub head_queued : m.live m.head ≡ true
  head_queued = (queued m.head (ground arith)).0

  -- An address that malloc returns is not in the queue.
  pub fresh_node : (r : Ptr) → r ≢ null → Fresh m r → count r (m.head ∷ rest) ≡ 0
  fresh_node r h f = ground (arith, s.nodes r)

  pub next_queued :
      (nx : Ptr)
      → m.next m.head ≡ nx
      → nx ≢ null
      → (rest ≡ nx ∷ tail_of rest)
        × (m.live nx ≡ true)
        × (count nx (tail_of rest) ≡ 0)
        × (m.head ≢ nx)
  next_queued nx e h =
      let c = rest-cons m.next m.head nx rest e h s.chain in
      (
        c,
        ground (arith, s.nodes nx, ap (count nx) c),
        ground (arith, s.nodes nx, ap (count nx) c),
        ground (arith, s.nodes nx, ap (count nx) c),
      )

  -- The values behind a node, after another one is written, or the first one is taken.
  pub values_kept :
      (r a : Ptr) → count r (m.head ∷ rest) ≡ 0 → map (update m.value r a) rest ≡ map m.value rest
  values_kept r a out = map-update m.value rest r a (omega arith)

  pub values_taken :
      (nx : Ptr)
      → m.next m.head ≡ nx
      → nx ≢ null
      → map m.value rest ≡ m.value nx ∷ map (update m.value nx null) (tail_of rest)
  values_taken nx e h =
      let q = next_queued nx e h in
      ap (map m.value) q.0
      ∙ ap (λ l. m.value nx ∷ l) (sym (map-update m.value (tail_of rest) nx null q.2))
