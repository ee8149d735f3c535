-- ===== src/SecureServer/Permits.antt =====
-- What becomes of the permits and of the descriptors of the secure server.
use mathlib.Core.Path.{subst}
use c_programming_language.Base.{ℕ, ◌+◌, ◌≡◌, refl, Bool, ◌==◌, if◌then◌else◌, arith}
use c_programming_language.Base.Threads.{count}
use c_programming_language.SecureServer.{
  max_connections, Place, waiting, accepted, secured, Server, Outcome, moves, waits, undefined,
  Results, main_at, main_step, thread_step, first_state, Fresh, Step, main_moves, thread_moves,
  Reach, start, later,
}

abbrev pub bit : Bool → ℕ
bit b = if b then 1 else 0

-- whether main has a permit, or the descriptor `fd`
abbrev pub permits_of : Place → ℕ
permits_of waiting = 0
permits_of p = 1

abbrev pub clients_of : ℕ → Place → ℕ
clients_of fd (accepted c) = bit (fd == c)
clients_of fd (secured c) = bit (fd == c)
clients_of fd p = 0

-- Each permit is free, or belongs to main or to a thread; the open descriptors are that of
-- main and those of all clients that were ever served.
pub record Balance (s : Server) : Type 0 where
  pub permits : s.conn_sem + permits_of s.place + s.threads ≡ max_connections
  pub clients : (fd : ℕ) → bit (s.is_open fd) ≡ clients_of fd s.place + count fd s.served

abbrev Made : (Server → Type 0) → Outcome → Type 0
Made P waits = Unit
Made P undefined = Unit
Made P (moves t) = P t

made : (P : Server → Type 0) (o : Outcome) {t : Server} → o ≡ moves t → Made P o → P t
made P o e m = subst (Made P) e m

module _ (r : Results) {s : Server} (f : Fresh r.client s) (a : Balance s) where
  main-permits :
      (p : Place)
      → s.place ≡ p
      → Made (λ t. t.conn_sem + permits_of t.place + t.threads ≡ max_connections) (main_at p r s)
  main-permits waiting e = ground (arith, a.permits)
  main-permits _ e = ground (arith, a.permits)

  main-clients :
      (fd : ℕ) (p : Place)
      → s.place ≡ p
      → Made (λ t. bit (t.is_open fd) ≡ clients_of fd t.place + count fd t.served) (main_at p r s)
  main-clients fd waiting e = ground (arith, a.clients fd)
  main-clients fd _ e = ground (arith, a.clients fd)

Step-Balance : {s t : Server} → Step s t → Balance s → Balance t
unfolding main_step thread_step
Step-Balance {s} (main_moves r f e) a = record {
  permits = made _ _ e (main-permits r f a s.place refl);
  clients = λ fd. made _ _ e (main-clients r f a fd s.place refl);
}
Step-Balance {s} (thread_moves e) a = made Balance (thread_step s) e ended
  where
    ended : Made Balance (thread_step s)
    ended = ground (arith, a.permits)

first-Balance : Balance first_state
first-Balance = record { permits = refl; clients = λ fd. refl }

pub Reach-Balance : {s : Server} → Reach s → Balance s
Reach-Balance start = first-Balance
Reach-Balance (later r st) = Step-Balance st (Reach-Balance r)

-- In every state that the server can come to, the free permits, the one that main has and the running
-- threads are max_connections together; and a client that a thread was made for is never closed: the
-- open descriptors are that of main and those of all such clients, each once.
pub permits_and_clients :
    {s : Server}
    → Reach s
    → (s.conn_sem + permits_of s.place + s.threads ≡ max_connections)
      × ((fd : ℕ) → bit (s.is_open fd) ≡ clients_of fd s.place + count fd s.served)
permits_and_clients reached = let a = Reach-Balance reached in (a.permits, a.clients)
