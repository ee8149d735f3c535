-- ===== src/ThreadPool/Tests.antt =====
-- Main and one worker in a given order, and handle_client on a request; the theorems there.
use native.Mathlib.Decide.{dec_lt}
use c_programming_language.Base.{
  ℕ, ◌≤◌, ◌<◌, ◌≡◌, ◌≢◌, ◌↔◌, refl, Option, none, some, List, [], ◌∷◌, ◌++◌, arith, update,
  replicate,
}
use c_programming_language.Base.Text.{codes}
use c_programming_language.ThreadPool.{max_queue, Outcome, moves, waits}
use c_programming_language.ThreadPool.Ring.{window}
use c_programming_language.ThreadPool.State.{step, System, Reach, start, later}
use c_programming_language.ThreadPool.Correct.{clients_in_order, pool_keeps_moving}
use c_programming_language.ThreadPool.Overflow.{LongRequest, handle_client_overflows}
use c_programming_language.ThreadPool.Handler.{
  add_index, handle_client, handle_client_serves, served, Sends, Action, printed, ends_in_slash,
}

record Run (n : ℕ) : Type 0 where
  last : System
  reach : Reach n last

advance :
    {n : ℕ} (u : Run n) (i : ℕ) (client : Option ℕ)
    → Dec (i < n)
    → (o : Outcome) → step client i u.last.queue (u.last.pc i) ≡ o
    → Run n
advance u i client (yes h) (moves q p) e = record {
  last = record { queue = q; pc = update u.last.pc i p };
  reach = later i client u.reach h e;
}
advance u i client _ _ e = u

run : {n : ℕ} → Run n → List (ℕ × Option ℕ) → Run n
unfolding advance dec_lt step
run u [] = u
run {n} u ((i, client) ∷ xs) =
    run (advance u i client (dec_lt i n) (step client i u.last.queue (u.last.pc i)) refl) xs

-- main has put one client into the ring, and the worker has taken it
abbrev one_client : Run 2
one_client =
    run (record { last = _; reach = start (λ _. 0) })
      ((0, some 7) ∷ (replicate 5 (0, none) ++ replicate 5 (1, none)))

one_client_received : one_client.last.queue.received ≡ 7 ∷ []
unfolding run
one_client_received = refl

clients_in_order_example :
    (one_client.last.queue.count ≤ max_queue)
    × (one_client.last.queue.sent
        ≡ one_client.last.queue.received
          ++ window one_client.last.queue.count one_client.last.queue.front
              one_client.last.queue.client_sockets)
clients_in_order_example = clients_in_order one_client.reach

pool_keeps_moving_example :
    (i : ℕ) × (i < 2)
    × ((client : Option ℕ) → step client i one_client.last.queue (one_client.last.pc i) ≢ waits)
pool_keeps_moving_example = pool_keeps_moving one_client.reach (omega arith)

-- a request for a directory, and the files of a server that has its index page only
abbrev asks_for : List ℕ → List ℕ → Option (List ℕ)
asks_for path text = some path

abbrev one_page : List ℕ → Option (List (List ℕ))
one_page path = some (codes "hello" ∷ [])

handle_client_serves_example :
    (acts : List Action) × (handle_client
        (asks_for (codes "/a/"))
        one_page
        (some (codes "GET /a/ HTTP/1.0"))
      ≡ some acts)
    × Sends acts (one_page (served (codes "/a/")))
handle_client_serves_example =
    handle_client_serves (asks_for (codes "/a/")) one_page (codes "GET /a/ HTTP/1.0") (codes "/a/")
      refl (omega arith)

-- 506 slashes are more than fit.
abbrev slashes : List ℕ
slashes = replicate 506 b'/'

handle_client_overflows_example :
    (handle_client (asks_for slashes) one_page (some (codes "GET")) ≡ none)
    ↔ LongRequest (asks_for slashes) (some (codes "GET"))
handle_client_overflows_example =
    handle_client_overflows (asks_for slashes) one_page (some (codes "GET"))

slashes_overflow : handle_client (asks_for slashes) one_page (some (codes "GET")) ≡ none
unfolding handle_client printed add_index ends_in_slash
slashes_overflow = refl
