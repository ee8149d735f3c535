-- ===== src/ThreadPool/Handler.antt =====
-- handle_client of ThreadPool/server.c. Its calls of the system are its result: what it writes to the
-- client and what it closes, in order. What read, regexec and open return are arguments.
use Prim.Native.String.{String}
use native.Mathlib.Decide.{dec_lt}
use mathlib.Core.List.{flatten}
use c_programming_language.Base.Text.{take, string_of, codes, take-all}
use c_programming_language.Base.{
  ℕ, ◌+◌, ◌≤◌, ◌≡◌, refl, ap, ◌∙◌, Bool, false, Option, none, some, List, [], ◌∷◌, ◌++◌, map, leb,
  ltb, get_elem?, ◌-◌, ◌==◌, if◌then◌else◌, length, arith, ◌>>=◌,
}

abbrev pub is_slash : Option ℕ → Bool
is_slash none = false
is_slash (some c) = c == b'/'

-- `filepath[strlen(filepath)-1]=='/'`
unfoldable pub ends_in_slash : List ℕ → Bool
ends_in_slash text = is_slash (get_elem? text (length text - 1))

-- DOC_ROOT
abbrev pub doc_root : List ℕ
doc_root = codes "./www"

abbrev pub index_html : List ℕ
index_html = codes "index.html"

-- char filepath[512]
abbrev pub path_size : ℕ
path_size = 512

-- `snprintf` of the root and the path into filepath, which keeps 511 characters
unfoldable pub printed : List ℕ → List ℕ
printed path = take 511 (doc_root ++ path)

-- the writes of characters from index `i` of filepath on; `none` is a write past its end
unfoldable pub write_chars : ℕ → List ℕ → Option (List ℕ)
write_chars i [] = some []
write_chars i (c ∷ cs) =
    let rest = write_chars (i + 1) cs >>= λ r. some (c ∷ r) in
    if ltb i path_size then rest else none

-- `strcat`, which writes the characters and a NUL behind the text
unfoldable pub strcat : List ℕ → List ℕ → Option (List ℕ)
unfolding write_chars
strcat text more = write_chars (length text) (more ++ 0 ∷ []) >>= λ _. some (text ++ more)

unfoldable pub add_index : List ℕ → Option (List ℕ)
unfolding strcat
add_index text =
    let longer = strcat text index_html in if ends_in_slash text then longer else some text

unfoldable pub file_path : List ℕ → Option (List ℕ)
file_path path = add_index (printed path)

pub data Action : Type 0 where
  write : List ℕ → Action
  close_file : Action
  close_client : Action

-- a status line and the blank line behind it
abbrev pub reply : String → List ℕ
reply s = codes s ++ 13 ∷ 10 ∷ 13 ∷ 10 ∷ []

-- `write` of the first `n` bytes of a string literal, with its terminating NUL
abbrev pub write_bytes : ℕ → List ℕ → Action
write_bytes n text = write (take n (text ++ 0 ∷ []))

-- The answer for a path, where `opened` is the content that read returns piece by piece.
unfoldable pub send_file : Option (List (List ℕ)) → List Action
send_file none = write_bytes 27 (reply "HTTP/1.1 404 Not Found") ∷ close_client ∷ []
send_file (some pieces) =
    write_bytes 19 (reply "HTTP/1.1 200 OK") ∷ (map write pieces ++ close_file ∷ close_client ∷ [])

abbrev pub answer : (List ℕ → Option (List (List ℕ))) → Option (List ℕ) → Option (List Action)
answer open_file none = some (write_bytes 28 (reply "HTTP/1.1 400 Bad Request") ∷ close_client ∷ [])
answer open_file (some path) = file_path path >>= λ p. some (send_file (open_file p))

-- `request` is what read puts into the buffer, or `none` if it returns no bytes; `regexec` gives the
-- path in a request that matches. The result is `none` where filepath overflows.
unfoldable pub handle_client :
    (regexec : List ℕ → Option (List ℕ)) (open_file : List ℕ → Option (List (List ℕ)))
    → Option (List ℕ)
    → Option (List Action)
unfolding string_of send_file file_path
handle_client regexec open_file none = some (close_client ∷ [])
handle_client regexec open_file (some bytes) = answer open_file (regexec (string_of bytes))

-- the index page where a slash ends the path
abbrev pub with_index : List ℕ → List ℕ
with_index text = if ends_in_slash text then text ++ index_html else text

write_chars-room :
    (i : ℕ) (cs : List ℕ)
    → i ≤ path_size
    → write_chars i cs ≡ (if leb (i + length cs) path_size then some cs else none)
unfolding write_chars
write_chars-room i [] h = ground arith
write_chars-room i (c ∷ cs) h = elim (dec_lt i path_size) [
  | yes inside ↦ ground (arith, write_chars-room (i + 1) cs (omega arith))
  | no full ↦ ground arith
]

pub add_index_lem :
    (text : List ℕ)
    → length text ≤ 511
    → add_index text ≡ (
        if ends_in_slash text
        then (if leb (length text) 501 then some (text ++ index_html) else none)
        else some text)
unfolding add_index strcat
add_index_lem text h = ground (arith, write_chars-room (length text) (index_html ++ 0 ∷ []))

add_index-fits : (text : List ℕ) → length text ≤ 501 → add_index text ≡ some (with_index text)
add_index-fits text h = ground (arith, add_index_lem text (omega arith))

pub file_path-fits :
    (path : List ℕ)
    → length (doc_root ++ path) ≤ 501
    → file_path path ≡ some (with_index (doc_root ++ path))
unfolding file_path printed
file_path-fits path h =
    ap add_index (take-all 511 (doc_root ++ path) (omega arith))
    ∙ add_index-fits (doc_root ++ path) h

-- the file that is served for a path
abbrev pub served : List ℕ → List ℕ
served path = with_index (doc_root ++ path)

-- what is sent for the content of a file, or where there is no file
abbrev pub response : Option (List (List ℕ)) → List ℕ
response none = reply "HTTP/1.1 404 Not Found" ++ 0 ∷ []
response (some pieces) = reply "HTTP/1.1 200 OK" ++ flatten pieces

-- the calls behind the last write
abbrev pub ending : Option (List (List ℕ)) → List Action
ending none = close_client ∷ []
ending (some pieces) = close_file ∷ close_client ∷ []

-- The calls are writes of what is sent, and then those of the ending, each once.
abbrev pub Sends : List Action → Option (List (List ℕ)) → Type 0
Sends acts opened =
    (texts : List (List ℕ)) × (acts ≡ map write texts ++ ending opened)
    × (flatten texts ≡ response opened)

send_file-Sends : (opened : Option (List (List ℕ))) → Sends (send_file opened) opened
unfolding send_file flatten
send_file-Sends none = (response none ∷ [], refl, refl)
send_file-Sends (some pieces) = (reply "HTTP/1.1 200 OK" ∷ pieces, refl, refl)

-- A request for a path that fits with the root into 501 characters is answered for the file whose name
-- is the root and the path, with index.html behind a slash at the end: by writes of the status 200 and
-- its content, after which the file is closed, or of the status 404 and a NUL where it cannot be opened.
-- Behind the writes the client is closed, once and last.
pub handle_client_serves :
    (regexec : List ℕ → Option (List ℕ)) (open_file : List ℕ → Option (List (List ℕ)))
    (bytes path : List ℕ)
    → regexec (string_of bytes) ≡ some path
    → length (doc_root ++ path) ≤ 501
    → (acts : List Action) × (handle_client regexec open_file (some bytes) ≡ some acts)
      × Sends acts (open_file (served path))
unfolding handle_client
handle_client_serves regexec open_file bytes path m h = (
  send_file (open_file (served path)),
  rw m (rw (file_path-fits path h)),
  send_file-Sends (open_file (served path)),
)
