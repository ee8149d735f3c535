-- ===== src/FileServer/Handler.antt =====
-- handle_client of concurrentFileServerClient/server.c. Its calls of the system are its result: what it
-- writes to the client, what it closes and the permit that it posts, in order. What read and open
-- return, and whether each write succeeds, are arguments.
use c_programming_language.Base.{
  ℕ, ◌≡◌, refl, ap, Bool, true, false, Option, none, some, List, [], ◌∷◌, ◌++◌, if◌then◌else◌, map,
}
use c_programming_language.Base.Text.{codes, string_of}

pub data Action : Type 0 where
  write : List ℕ → Action
  close_file : Action
  close_client : Action
  post : Action

abbrev pub error_text : List ℕ
error_text = codes "Error: File not found or cannot open" ++ 10 ∷ []

-- The loop that sends the pieces that read returns; it leaves at a write that fails.
unfoldable pub send_loop : List (List ℕ) → List Bool → List Action → List Action
send_loop [] oks rest = rest
send_loop (piece ∷ pieces) [] rest = write piece ∷ send_loop pieces [] rest
send_loop (piece ∷ pieces) (ok ∷ oks) rest =
    let more = send_loop pieces oks rest in write piece ∷ (if ok then more else rest)

abbrev pub reply : Option (List (List ℕ)) → List Bool → List Action
reply none oks = write error_text ∷ close_client ∷ post ∷ []
reply (some pieces) oks = send_loop pieces oks (close_file ∷ close_client ∷ post ∷ [])

-- `request` is what read puts into the buffer, or `none` if it returns no bytes; `oks` are the results
-- of the writes of the file, which succeed from their end on.
unfoldable pub handle_client :
    (open_file : List ℕ → Option (List (List ℕ))) (oks : List Bool) → Option (List ℕ) → List Action
unfolding send_loop string_of
handle_client open_file oks none = close_client ∷ post ∷ []
handle_client open_file oks (some bytes) = reply (open_file (string_of bytes)) oks

-- The pieces up to the first write that fails, and that one.
abbrev pub tried : List (List ℕ) → List Bool → List (List ℕ)
tried [] oks = []
tried (piece ∷ pieces) [] = piece ∷ tried pieces []
tried (piece ∷ pieces) (true ∷ oks) = piece ∷ tried pieces oks
tried (piece ∷ pieces) (false ∷ oks) = piece ∷ []

-- what is written for a file, write by write
abbrev pub content : Option (List (List ℕ)) → List Bool → List (List ℕ)
content none oks = error_text ∷ []
content (some pieces) oks = tried pieces oks

-- the calls behind the last write
abbrev pub ending : Option (List (List ℕ)) → List Action
ending none = close_client ∷ post ∷ []
ending (some pieces) = close_file ∷ close_client ∷ post ∷ []

send_loop_lem :
    (pieces : List (List ℕ)) (oks : List Bool) (rest : List Action)
    → send_loop pieces oks rest ≡ map write (tried pieces oks) ++ rest
unfolding send_loop
send_loop_lem [] oks rest = refl
send_loop_lem (p ∷ ps) [] rest = ap (λ l. write p ∷ l) (send_loop_lem ps [] rest)
send_loop_lem (p ∷ ps) (true ∷ oks) rest = ap (λ l. write p ∷ l) (send_loop_lem ps oks rest)
send_loop_lem (p ∷ ps) (false ∷ oks) rest = refl

reply_lem :
    (opened : Option (List (List ℕ))) (oks : List Bool)
    → reply opened oks ≡ map write (content opened oks) ++ ending opened
reply_lem none oks = refl
reply_lem (some pieces) oks = send_loop_lem pieces oks (close_file ∷ close_client ∷ post ∷ [])

-- A request for a file is answered by the pieces that read returns, up to the first write that fails,
-- or by an error text if the file cannot be opened. Behind the last write the file, if it was opened,
-- and then the client are closed, and then the permit is posted, each once, and nothing else is done.
pub handle_client_replies :
    (open_file : List ℕ → Option (List (List ℕ))) (oks : List Bool) (bytes : List ℕ)
    → handle_client open_file oks (some bytes)
      ≡ map write (content (open_file (string_of bytes)) oks)
        ++ ending (open_file (string_of bytes))
unfolding handle_client
handle_client_replies open_file oks bytes = reply_lem (open_file (string_of bytes)) oks
