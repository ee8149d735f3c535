-- ===== src/FileServer.antt =====
-- network_programming/concurrentFileServerClient/server.c: the accept loop of main, which takes a permit
-- of conn_sem for each client, and the threads that serve the clients. The file has one step of main
-- and one of a thread at a time. What the system returns is an argument; the sockets that are open and
-- the integers that are allocated belong to the state, since the program has to give them back.
--
-- FileServer.Handler has what handle_client sends.
pub mod Accounts
pub mod Handler
mod Tests
use c_programming_language.Base.{
  ℕ, ◌+◌, ◌-◌, ◌≡◌, Bool, true, false, Option, none, some, List, [], ◌∷◌, ◌++◌, ◌==◌, if◌then◌else◌,
  update,
}

-- MAX_CONNECTIONS
abbrev pub max_connections : ℕ
max_connections = 3

-- Where a thread stands in handle_client, with its client: before it releases its argument, before it
-- closes the client, and before it gives the permit back.
pub data Phase : Type 0 where
  starting : ℕ → Phase
  serving : ℕ → Phase
  closed : Phase

-- Where main stands in its loop.
pub data Place : Type 0 where
  waiting : Place
  permitted : Place
  allocated : Place
  accepted : ℕ → Place

pub record Server : Type 0 where
  pub place : Place
  pub conn_sem : ℕ
  pub is_open : ℕ → Bool
  pub integers : ℕ
  pub threads : List Phase

-- What the calls of main return: whether malloc succeeds, the client of accept, and whether the thread
-- is created.
pub record Results : Type 0 where
  pub malloc_ok : Bool
  pub client : Option ℕ
  pub create_ok : Bool

abbrev pub accept_client : Option ℕ → Server → Server
accept_client none s = record s {
  place = waiting;
  integers = s.integers - 1;
  conn_sem = s.conn_sem + 1;
}
accept_client (some fd) s = record s { place = accepted fd; is_open = update s.is_open fd true }

abbrev pub main_at : Place → Results → Server → Option Server
main_at waiting r s =
    if s.conn_sem == 0
    then none
    else some (record s { place = permitted; conn_sem = s.conn_sem - 1 })
main_at permitted r s =
    if r.malloc_ok
    then some (record s { place = allocated; integers = s.integers + 1 })
    else some (record s { place = waiting; conn_sem = s.conn_sem + 1 })
main_at allocated r s = some (accept_client r.client s)
main_at (accepted fd) r s =
    if r.create_ok
    then some (record s { place = waiting; threads = s.threads ++ starting fd ∷ [] })
    else some (record s {
      place = waiting;
      is_open = update s.is_open fd false;
      integers = s.integers - 1;
      conn_sem = s.conn_sem + 1;
    })

-- A step of the loop of main; `none` where it waits for a permit.
unfoldable pub main_step : Results → Server → Option Server
main_step r s = main_at s.place r s

abbrev pub thread_at : Phase → List Phase → List Phase → Server → Server
thread_at (starting fd) before after s = record s {
  integers = s.integers - 1;
  threads = before ++ serving fd ∷ after;
}
thread_at (serving fd) before after s = record s {
  is_open = update s.is_open fd false;
  threads = before ++ closed ∷ after;
}
thread_at closed before after s = record s { conn_sem = s.conn_sem + 1; threads = before ++ after }

-- main after its initialisation
abbrev pub first_state : Server
first_state = record {
  place = waiting;
  conn_sem = max_connections;
  is_open = λ _. false;
  integers = 0;
  threads = [];
}

-- accept returns a descriptor that is not open.
abbrev pub Fresh : Option ℕ → Server → Type 0
Fresh none s = Unit
Fresh (some fd) s = s.is_open fd ≡ false

pub data Step (s : Server) : Server → Type 0 where
  main_moves : (r : Results) {t : Server} → Fresh r.client s → main_step r s ≡ some t → Step s t
  thread_moves :
      (before : List Phase) (p : Phase) (after : List Phase)
      → s.threads ≡ before ++ p ∷ after
      → Step s (thread_at p before after s)

-- The states that the server can come to.
pub data Reach : Server → Type 0 where
  start : Reach first_state
  later : {s t : Server} → Reach s → Step s t → Reach t
