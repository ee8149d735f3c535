-- ===== src/FileServer/Accounts.antt =====
-- Permits, descriptors and memory of the file server: what is taken is given back.
use mathlib.Core.Path.{subst}
use c_programming_language.Base.{
  ℕ, suc, ◌+◌, ◌≡◌, refl, ap, ◌∙◌, Bool, Option, none, some, List, [], ◌∷◌, ◌++◌, ◌==◌,
  if◌then◌else◌, arith, length, length-append,
}
use c_programming_language.FileServer.{
  max_connections, Phase, starting, serving, closed, Place, waiting, allocated, accepted, Server,
  Results, main_step, main_at, thread_at, first_state, Fresh, Step, main_moves, thread_moves, Reach,
  start, later,
}

abbrev pub bit : Bool → ℕ
bit b = if b then 1 else 0

-- whether main has a permit, has an integer, has the descriptor `fd`
abbrev pub permits_of : Place → ℕ
permits_of waiting = 0
permits_of p = 1

abbrev pub integers_of : Place → ℕ
integers_of allocated = 1
integers_of (accepted fd) = 1
integers_of p = 0

abbrev pub clients_of : ℕ → Place → ℕ
clients_of fd (accepted c) = bit (fd == c)
clients_of fd p = 0

-- the same of a thread
abbrev pub integers_in : Phase → ℕ
integers_in (starting fd) = 1
integers_in p = 0

abbrev pub clients_in : ℕ → Phase → ℕ
clients_in fd (starting c) = bit (fd == c)
clients_in fd (serving c) = bit (fd == c)
clients_in fd closed = 0

abbrev pub sum_over : (Phase → ℕ) → List Phase → ℕ
sum_over w [] = 0
sum_over w (p ∷ ps) = w p + sum_over w ps

sum_over-append :
    (w : Phase → ℕ) (xs ys : List Phase) → sum_over w (xs ++ ys) ≡ sum_over w xs + sum_over w ys
sum_over-append w [] ys = omega arith
sum_over-append w (x ∷ xs) ys = omega (arith, sum_over-append w xs ys)

-- Each permit is free, or belongs to main or to one thread; each integer and each open descriptor
-- belongs to main or to one thread.
pub record Accounts (s : Server) : Type 0 where
  pub permits : s.conn_sem + permits_of s.place + length s.threads ≡ max_connections
  pub integers : s.integers ≡ integers_of s.place + sum_over integers_in s.threads
  pub clients :
      (fd : ℕ) → bit (s.is_open fd) ≡ clients_of fd s.place + sum_over (clients_in fd) s.threads

-- If main makes a step, what it leaves has the property.
abbrev Made : (Server → Type 0) → Option Server → Type 0
Made P none = Unit
Made P (some t) = P t

made : (P : Server → Type 0) (o : Option Server) {t : Server} → o ≡ some t → Made P o → P t
made P o e m = subst (Made P) e m

module _ (r : Results) {s : Server} (f : Fresh r.client s) (a : Accounts s) where
  main-permits :
      (p : Place)
      → s.place ≡ p
      → Made
          (λ t. t.conn_sem + permits_of t.place + length t.threads ≡ max_connections)
          (main_at p r s)
  main-permits waiting e = ground (arith, a.permits)
  main-permits (accepted fd) e =
      ground (arith, a.permits, length-append s.threads (starting fd ∷ []))
  main-permits _ e = ground (arith, a.permits)

  main-integers :
      (p : Place)
      → s.place ≡ p
      → Made
          (λ t. t.integers ≡ integers_of t.place + sum_over integers_in t.threads)
          (main_at p r s)
  main-integers waiting e = ground (arith, a.integers)
  main-integers (accepted fd) e =
      ground (arith, a.integers, sum_over-append integers_in s.threads (starting fd ∷ []))
  main-integers _ e = ground (arith, a.integers)

  main-clients :
      (fd : ℕ) (p : Place)
      → s.place ≡ p
      → Made
          (λ t. bit (t.is_open fd) ≡ clients_of fd t.place + sum_over (clients_in fd) t.threads)
          (main_at p r s)
  main-clients fd waiting e = ground (arith, a.clients fd)
  main-clients fd (accepted c) e =
      ground (arith, a.clients fd, sum_over-append (clients_in fd) s.threads (starting c ∷ []))
  main-clients fd _ e = ground (arith, a.clients fd)

module _ {s : Server} (a : Accounts s) (before : List Phase) (after : List Phase) where
  -- A weight of all threads, before and after one of them makes a step.
  sum_over-threads :
      (w : Phase → ℕ) (p : Phase)
      → s.threads ≡ before ++ p ∷ after
      → sum_over w s.threads ≡ sum_over w before + (w p + sum_over w after)
  sum_over-threads w p e = ap (sum_over w) e ∙ sum_over-append w before (p ∷ after)

  length-threads :
      (p : Phase)
      → s.threads ≡ before ++ p ∷ after
      → length s.threads ≡ length before + suc (length after)
  length-threads p e = ap length e ∙ length-append before (p ∷ after)

  thread-Accounts :
      (p : Phase) → s.threads ≡ before ++ p ∷ after → Accounts (thread_at p before after s)
  thread-Accounts (starting c) e = record {
    permits =
        omega (
          arith,
          a.permits,
          length-threads (starting c) e,
          length-append before (serving c ∷ after),
        );
    integers = omega (
      arith,
      a.integers,
      sum_over-threads integers_in (starting c) e,
      sum_over-append integers_in before (serving c ∷ after),
    );
    clients = λ fd. omega (
      arith,
      a.clients fd,
      sum_over-threads (clients_in fd) (starting c) e,
      sum_over-append (clients_in fd) before (serving c ∷ after),
    );
  }
  thread-Accounts (serving c) e = record {
    permits =
        omega
          (arith, a.permits, length-threads (serving c) e, length-append before (closed ∷ after));
    integers = omega (
      arith,
      a.integers,
      sum_over-threads integers_in (serving c) e,
      sum_over-append integers_in before (closed ∷ after),
    );
    clients = λ fd. ground (
      arith,
      a.clients fd,
      sum_over-threads (clients_in fd) (serving c) e,
      sum_over-append (clients_in fd) before (closed ∷ after),
    );
  }
  thread-Accounts closed e = record {
    permits = omega (arith, a.permits, length-threads closed e, length-append before after);
    integers = omega (
      arith,
      a.integers,
      sum_over-threads integers_in closed e,
      sum_over-append integers_in before after,
    );
    clients = λ fd. omega (
      arith,
      a.clients fd,
      sum_over-threads (clients_in fd) closed e,
      sum_over-append (clients_in fd) before after,
    );
  }

Step-Accounts : {s t : Server} → Step s t → Accounts s → Accounts t
unfolding main_step
Step-Accounts {s} (main_moves r f e) a = record {
  permits = made _ _ e (main-permits r f a s.place refl);
  integers = made _ _ e (main-integers r f a s.place refl);
  clients = λ fd. made _ _ e (main-clients r f a fd s.place refl);
}
Step-Accounts (thread_moves before p after e) a = thread-Accounts a before after p e

first-Accounts : Accounts first_state
first-Accounts = record { permits = refl; integers = refl; clients = λ fd. refl }

pub Reach-Accounts : {s : Server} → Reach s → Accounts s
Reach-Accounts start = first-Accounts
Reach-Accounts (later r st) = Step-Accounts st (Reach-Accounts r)

-- In every state that the server can come to, whatever the system returns, the free permits, the one
-- that main has and the running threads are max_connections together; each allocated integer belongs
-- to main or to one thread, and so does each open client, to one only.
pub nothing_leaks :
    {s : Server}
    → Reach s
    → (s.conn_sem + permits_of s.place + length s.threads ≡ max_connections)
      × (s.integers ≡ integers_of s.place + sum_over integers_in s.threads)
      × ((fd : ℕ) → bit (s.is_open fd) ≡ clients_of fd s.place + sum_over (clients_in fd) s.threads)
nothing_leaks reached = let a = Reach-Accounts reached in (a.permits, a.integers, a.clients)

-- Where main waits for a permit, as many threads as there are permits are running.
pub waits-full :
    {s : Server}
    → Reach s
    → (r : Results) → main_step r s ≡ none
    → length s.threads ≡ max_connections
unfolding main_step
waits-full {s} reached r e = at (s.place) refl e
  where
    at : (p : Place) → s.place ≡ p → main_at p r s ≡ none → length s.threads ≡ max_connections
    at waiting d e = ground (arith, (Reach-Accounts reached).permits)
    at _ d e = ground arith
