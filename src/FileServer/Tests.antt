-- ===== src/FileServer/Tests.antt =====
-- The first client of the file server, and a file in two pieces; the theorems there.
use c_programming_language.Base.{
  map, ◌++◌, ℕ, ◌+◌, ◌≡◌, refl, true, false, Option, none, some, List, [], ◌∷◌, length, update,
}
use c_programming_language.Base.Text.{codes, string_of}
use c_programming_language.FileServer.{
  max_connections, starting, serving, Server, Results, first_state, Reach, start, later, main_moves,
  thread_moves, main_step,
}
use c_programming_language.FileServer.Accounts.{
  bit, permits_of, integers_of, integers_in, clients_of, clients_in, sum_over, nothing_leaks,
}
use c_programming_language.FileServer.Handler.{
  handle_client, handle_client_replies, content, ending, write, close_file, close_client, post,
}

abbrev accepts_four : Results
accepts_four = record { malloc_ok = true; client = some 4; create_ok = true }

abbrev creates : Results
creates = record { malloc_ok = true; client = none; create_ok = true }

-- a client is served, and main waits for the next one
abbrev one_served : Server
one_served = record first_state {
  conn_sem = 2;
  is_open = update (λ _. false) 4 true;
  threads = serving 4 ∷ [];
}

one_served_reached : Reach one_served
unfolding main_step
one_served_reached =
    later
      (later
        (later (later (later start (main_moves creates tt refl)) (main_moves creates tt refl))
          (main_moves accepts_four refl refl))
        (main_moves creates tt refl))
      (thread_moves [] (starting 4) [] refl)

nothing_leaks_example :
    (one_served.conn_sem + permits_of one_served.place + length one_served.threads
      ≡ max_connections)
    × (one_served.integers ≡ integers_of one_served.place + sum_over integers_in one_served.threads)
    × ((fd : ℕ)
        → bit (one_served.is_open fd)
          ≡ clients_of fd one_served.place + sum_over (clients_in fd) one_served.threads)
nothing_leaks_example = nothing_leaks one_served_reached

abbrev two_pieces : List ℕ → Option (List (List ℕ))
two_pieces name = some (codes "ab" ∷ codes "c" ∷ [])

handle_client_cut :
    handle_client two_pieces (false ∷ []) (some (codes "f"))
    ≡ write (codes "ab") ∷ close_file ∷ close_client ∷ post ∷ []
unfolding handle_client
handle_client_cut = refl

handle_client_replies_example :
    handle_client two_pieces (false ∷ []) (some (codes "f"))
    ≡ map write (content (two_pieces (string_of (codes "f"))) (false ∷ []))
      ++ ending (two_pieces (string_of (codes "f")))
handle_client_replies_example = handle_client_replies two_pieces (false ∷ []) (codes "f")
