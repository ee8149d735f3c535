-- ===== src/SecureServer/Handler.antt =====
-- handle_client of secureHttpServerAndClient/server.c. Its calls of the system are its result: what it
-- writes to the client, and what it closes, frees and posts, in order. What SSL_read, regexec and open
-- return are arguments. The path of a file is built by the text of ThreadPool/server.c.
use mathlib.Core.List.{flatten}
use c_programming_language.Base.{
  ℕ, ◌≤◌, ◌≡◌, refl, Option, none, some, List, [], ◌∷◌, ◌++◌, map, length, ◌>>=◌,
}
use c_programming_language.Base.Text.{take, string_of}
use c_programming_language.ThreadPool.Handler.{
  doc_root, file_path, file_path-fits, reply, served, response,
}

pub data Action : Type 0 where
  ssl_write : List ℕ → Action
  close_file : Action
  ssl_shutdown : Action
  ssl_free : Action
  post : Action

-- `SSL_write` of the first `n` bytes of a string literal, with its terminating NUL
abbrev pub ssl_write_bytes : ℕ → List ℕ → Action
ssl_write_bytes n text = ssl_write (take n (text ++ 0 ∷ []))

-- the calls at the end of each branch
abbrev pub finish : List Action
finish = ssl_shutdown ∷ ssl_free ∷ post ∷ []

-- The answer for a path, where `opened` is the content that read returns piece by piece.
unfoldable pub send_file : Option (List (List ℕ)) → List Action
send_file none = ssl_write_bytes 27 (reply "HTTP/1.1 404 Not Found") ∷ finish
send_file (some pieces) =
    ssl_write_bytes 19 (reply "HTTP/1.1 200 OK") ∷ (map ssl_write pieces ++ close_file ∷ finish)

abbrev pub answer : (List ℕ → Option (List (List ℕ))) → Option (List ℕ) → Option (List Action)
answer open_file none = some (ssl_write_bytes 28 (reply "HTTP/1.1 400 Bad Request") ∷ finish)
answer open_file (some path) = file_path path >>= λ p. some (send_file (open_file p))

-- `request` is what SSL_read puts into the buffer, or `none` if it returns no bytes; `regexec` gives
-- the path in a request that matches. The result is `none` where filepath overflows.
unfoldable pub handle_client :
    (regexec : List ℕ → Option (List ℕ)) (open_file : List ℕ → Option (List (List ℕ)))
    → Option (List ℕ)
    → Option (List Action)
unfolding string_of send_file
handle_client regexec open_file none = some finish
handle_client regexec open_file (some bytes) = answer open_file (regexec (string_of bytes))

-- the calls behind the last write
abbrev pub ending : Option (List (List ℕ)) → List Action
ending none = ssl_shutdown ∷ ssl_free ∷ post ∷ []
ending (some pieces) = close_file ∷ ssl_shutdown ∷ ssl_free ∷ post ∷ []

-- The calls are writes of what is sent, and then those of the ending, each once.
abbrev pub Sends : List Action → Option (List (List ℕ)) → Type 0
Sends acts opened =
    (texts : List (List ℕ)) × (acts ≡ map ssl_write texts ++ ending opened)
    × (flatten texts ≡ response opened)

send_file-Sends : (opened : Option (List (List ℕ))) → Sends (send_file opened) opened
unfolding send_file flatten
send_file-Sends none = (response none ∷ [], refl, refl)
send_file-Sends (some pieces) = (reply "HTTP/1.1 200 OK" ∷ pieces, refl, refl)

-- A request for a path that fits with the root into 501 characters is answered for the file whose name
-- is the root and the path, with index.html behind a slash at the end: by writes of the status 200 and
-- its content, after which the file is closed, or of the status 404 and a NUL where it cannot be opened.
-- Behind the writes the connection is shut down, then freed, and then the permit is posted, each once,
-- and nothing else is done.
pub secure_request_served :
    (regexec : List ℕ → Option (List ℕ)) (open_file : List ℕ → Option (List (List ℕ)))
    (bytes path : List ℕ)
    → regexec (string_of bytes) ≡ some path
    → length (doc_root ++ path) ≤ 501
    → (acts : List Action) × (handle_client regexec open_file (some bytes) ≡ some acts)
      × Sends acts (open_file (served path))
unfolding handle_client
secure_request_served regexec open_file bytes path m h = (
  send_file (open_file (served path)),
  rw m (rw (file_path-fits path h)),
  send_file-Sends (open_file (served path)),
)
