-- ===== src/SecureServer/Tests.antt =====
-- Two clients, of which the first is served to the end, and a request.
use c_programming_language.Base.{
  ℕ, ◌+◌, ◌≡◌, refl, Bool, true, false, Option, none, some, List, [], ◌∷◌, arith,
}
use c_programming_language.Base.Threads.{count}
use c_programming_language.Base.Text.{codes}
use c_programming_language.ThreadPool.Handler.{served}
use c_programming_language.SecureServer.{
  max_connections, Server, Results, main_step, thread_step, thread_moves, Outcome, moves,
  first_state, Fresh, main_moves, Reach, start, later,
}
use c_programming_language.SecureServer.Permits.{permits_and_clients, permits_of, clients_of, bit}
use c_programming_language.SecureServer.Handler.{
  Action, handle_client, Sends, secure_request_served,
}

record Run : Type 0 where
  last : Server
  reach : Reach last

-- accept gives the client `fd`, and SSL_accept and thrd_create succeed.
abbrev serves : ℕ → Results
serves fd = record { client = some fd; ssl_ok = true; create_ok = true }

advance :
    (u : Run) (r : Results) → Fresh r.client u.last → (o : Outcome) → main_step r u.last ≡ o → Run
advance u r f (moves t) e = record { last = t; reach = later u.reach (main_moves r f e) }
advance u r f _ e = u

advance_thread : (u : Run) (o : Outcome) → thread_step u.last ≡ o → Run
advance_thread u (moves t) e = record { last = t; reach = later u.reach (thread_moves e) }
advance_thread u _ e = u

accept_one : (u : Run) (fd : ℕ) (b : Bool) → u.last.is_open fd ≡ b → Run
unfolding advance
accept_one u fd true e = u
accept_one u fd false e = advance u (serves fd) e (main_step (serves fd) u.last) refl

go_on : Run → Run
unfolding advance
go_on u = advance u (record (serves 0) { client = none }) tt (main_step _ u.last) refl

-- The loop once, for the client `fd`.
round : ℕ → Run → Run
unfolding go_on accept_one main_step
round fd u = let v = go_on u in let w = accept_one v fd (v.last.is_open fd) refl in go_on (go_on w)

one_returns : Run → Run
unfolding advance_thread
one_returns u = advance_thread u (thread_step u.last) refl

abbrev two_served : Run
two_served = round 2 (one_returns (round 1 (record { last = first_state; reach = start })))

two_served_lem :
    (two_served.last.served ≡ 2 ∷ 1 ∷ [])
    × (two_served.last.threads ≡ 1)
    × (two_served.last.conn_sem ≡ 4)
unfolding round one_returns thread_step
two_served_lem = (refl, refl, refl)

permits_and_clients_example :
    (two_served.last.conn_sem + permits_of two_served.last.place + two_served.last.threads
      ≡ max_connections)
    × ((fd : ℕ)
        → bit (two_served.last.is_open fd)
          ≡ clients_of fd two_served.last.place + count fd two_served.last.served)
permits_and_clients_example = permits_and_clients two_served.reach

abbrev asks_for_root : List ℕ → Option (List ℕ)
asks_for_root text = some (codes "/")

abbrev no_file : List ℕ → Option (List (List ℕ))
no_file path = none

secure_request_served_example :
    (acts : List Action) × (handle_client asks_for_root no_file (some (codes "GET / HTTP/1.1"))
      ≡ some acts)
    × Sends acts (no_file (served (codes "/")))
secure_request_served_example =
    secure_request_served asks_for_root no_file (codes "GET / HTTP/1.1") (codes "/") refl
      (omega arith)
