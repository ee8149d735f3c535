-- ===== src/SecureServer.antt =====
-- network_programming/secureHttpServerAndClient/server.c: the accept loop of main, with a permit of
-- conn_sem for each client, and the threads that serve the clients, of which each ends by posting its
-- permit. What the system and the SSL library return is an argument; SSL_free leaves the descriptor
-- that SSL_set_fd attached. Where thrd_create fails, main gives thrd_detach an id that was not written:
-- this is undefined, and no state comes behind it. `is_open` are the descriptors that accept returned
-- and that close was not called for, and `served` has the clients that threads were made for; it is no
-- variable of the program.
--
-- SecureServer.Handler has what handle_client sends.
pub mod Permits
pub mod Handler
mod Tests
use c_programming_language.Base.{
  ℕ, zero, suc, ◌+◌, ◌-◌, ◌≡◌, Bool, true, false, Option, none, some, List, [], ◌∷◌, ◌==◌,
  if◌then◌else◌, update,
}

-- MAX_CONNECTIONS
abbrev pub max_connections : ℕ
max_connections = 5

-- Where main stands in its loop, with the descriptor of the client.
pub data Place : Type 0 where
  waiting : Place
  permitted : Place
  accepted : ℕ → Place
  secured : ℕ → Place

pub record Server : Type 0 where
  pub place : Place
  pub conn_sem : ℕ
  pub is_open : ℕ → Bool
  pub threads : ℕ
  pub served : List ℕ

-- A step is made, or the thread waits for a permit or does not run, or what it does is undefined.
pub data Outcome : Type 0 where
  moves : Server → Outcome
  waits : Outcome
  undefined : Outcome

-- What the calls of main return: the client of accept, and whether SSL_accept and thrd_create succeed.
pub record Results : Type 0 where
  pub client : Option ℕ
  pub ssl_ok : Bool
  pub create_ok : Bool

abbrev pub accept_client : Option ℕ → Server → Server
accept_client none s = record s { place = waiting; conn_sem = s.conn_sem + 1 }
accept_client (some fd) s = record s { place = accepted fd; is_open = update s.is_open fd true }

abbrev pub main_at : Place → Results → Server → Outcome
main_at waiting r s =
    if s.conn_sem == 0
    then waits
    else moves (record s { place = permitted; conn_sem = s.conn_sem - 1 })
main_at permitted r s = moves (accept_client r.client s)
main_at (accepted fd) r s =
    if r.ssl_ok
    then moves (record s { place = secured fd })
    else moves (record s {
      place = waiting;
      is_open = update s.is_open fd false;
      conn_sem = s.conn_sem + 1;
    })
main_at (secured fd) r s =
    if r.create_ok
    then moves (record s { place = waiting; threads = s.threads + 1; served = fd ∷ s.served })
    else undefined

-- A step of the loop of main.
unfoldable pub main_step : Results → Server → Outcome
main_step r s = main_at s.place r s

-- A thread returns from handle_client.
unfoldable pub thread_step : Server → Outcome
thread_step s =
    if s.threads == 0
    then waits
    else moves (record s { threads = s.threads - 1; conn_sem = s.conn_sem + 1 })

-- main after its initialisation
abbrev pub first_state : Server
first_state = record {
  place = waiting;
  conn_sem = max_connections;
  is_open = λ _. false;
  threads = 0;
  served = [];
}

-- accept returns a descriptor that is not open.
abbrev pub Fresh : Option ℕ → Server → Type 0
Fresh none s = Unit
Fresh (some fd) s = s.is_open fd ≡ false

pub data Step (s : Server) : Server → Type 0 where
  main_moves : (r : Results) {t : Server} → Fresh r.client s → main_step r s ≡ moves t → Step s t
  thread_moves : {t : Server} → thread_step s ≡ moves t → Step s t

-- The states that the server can come to.
pub data Reach : Server → Type 0 where
  start : Reach first_state
  later : {s t : Server} → Reach s → Step s t → Reach t
