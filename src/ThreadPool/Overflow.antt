-- ===== src/ThreadPool/Overflow.antt =====
-- handle_client of ThreadPool/server.c: the requests that overflow filepath.
use native.Mathlib.Decide.{dec_lt}
use c_programming_language.Base.Text.{take, string_of, length-take, length-take_le, get_elem?-take}
use c_programming_language.Base.{
  ℕ, ◌<◌, ◌≡◌, ◌↔◌, refl, ap, Option, none, some, List, ◌++◌, leb, get_elem?, ◌-◌, if◌then◌else◌,
  length, arith, ◌>>=◌,
}
use c_programming_language.ThreadPool.Handler.{
  is_slash, ends_in_slash, doc_root, index_html, printed, file_path, answer, handle_client,
  add_index_lem,
}

-- The root and the path have more than 501 characters, and the last of the first 511 is a slash.
abbrev pub Long : List ℕ → Type 0
Long path =
    (501 < length (doc_root ++ path))
    × (get_elem? (doc_root ++ path)
          ((if leb 511 (length (doc_root ++ path)) then 511 else length (doc_root ++ path)) - 1)
        ≡ some b'/')

overflow_cases :
    (o : Option ℕ) (n m : ℕ) (x y : List ℕ)
    → m ≡ (if leb 511 n then 511 else n)
    → ((if is_slash o then (if leb m 501 then some x else none) else some y) ≡ none)
      ↔ ((501 < n) × (o ≡ some b'/'))
overflow_cases none n m x y e = ground arith
overflow_cases (some c) n m x y e = ground arith

kept_last :
    (xs : List ℕ)
    → ends_in_slash (take 511 xs)
      ≡ is_slash (get_elem? xs ((if leb 511 (length xs) then 511 else length xs) - 1))
unfolding ends_in_slash
kept_last xs = rw (length-take 511 xs) (elim (dec_lt 0 (length xs)) [
  | yes some_char ↦ ap is_slash (get_elem?-take 511 _ xs (ground arith))
  | no empty ↦ ap is_slash (get_elem?-take 511 _ xs (ground arith))
])

file_path-Long : (path : List ℕ) → (file_path path ≡ none) ↔ Long path
unfolding file_path printed
file_path-Long path =
    let full = doc_root ++ path in
    let n = length-take 511 full in
    rw (add_index_lem (take 511 full) (length-take_le 511 full), kept_last full)
      (overflow_cases (get_elem? full ((if leb 511 (length full) then 511 else length full) - 1))
        (length full) (length (take 511 full)) (take 511 full ++ index_html) (take 511 full) n)

-- A request that was read and matches, for a path that is too long.
abbrev pub LongRequest : (List ℕ → Option (List ℕ)) → Option (List ℕ) → Type 0
LongRequest regexec request =
    (bytes : List ℕ) × (path : List ℕ) × (request ≡ some bytes)
    × (regexec (string_of bytes) ≡ some path)
    × Long path

bind_none : {A B : Type 0} (o : Option A) (f : A → B) → (o >>= λ a. some (f a)) ≡ none → o ≡ none
bind_none none f e = refl
bind_none (some a) f e = ground arith

answer-none :
    (open_file : List ℕ → Option (List (List ℕ))) (o : Option (List ℕ))
    → answer open_file o ≡ none
    → (path : List ℕ) × (o ≡ some path) × Long path
answer-none open_file none e = ground arith
answer-none open_file (some path) e =
    (path, refl, (file_path-Long path).0 (bind_none (file_path path) _ e))

-- Whatever is read, and whether it matches or not, handle_client writes past the end of filepath exactly
-- if a request was read that matches, whose path has with the root more than 501 characters, of which
-- the last one, or the 511th if there are more, is a slash.
pub handle_client_overflows :
    (regexec : List ℕ → Option (List ℕ)) (open_file : List ℕ → Option (List (List ℕ)))
    (request : Option (List ℕ))
    → (handle_client regexec open_file request ≡ none) ↔ LongRequest regexec request
unfolding handle_client
handle_client_overflows regexec open_file none =
    (λ e. ground arith, λ (bytes, path, e, m, long). ground arith)
handle_client_overflows regexec open_file (some bytes) = (
  λ e.
      let (path, m, long) = answer-none open_file (regexec (string_of bytes)) e in
      (bytes, path, refl, m, long),
  λ (read, path, e, m, long).
      let same : bytes ≡ read = ground arith in rw (same, m, (file_path-Long path).1 long) refl,
)
