-- ===== src/Redirect/Tests.antt =====
-- redirect.c with a word of three bytes behind a space, and one that is too long.
use aup_assignments.Prelude.{
  ◌<◌, ◌≡◌, refl, true, ℕ, Option, none, some, List, [], ◌∷◌, ◌++◌, leb, length, drop, replicate,
}
use aup_assignments.Unix.Bytes.{Bytes, write_at}
use aup_assignments.Unix.Proc.{done, exited}
use aup_assignments.Redirect.{terminal, source, sink, room, at, main, c_string, error_colon}
use aup_assignments.Redirect.Results.{start, redirects}

abbrev strerror : ℕ → Bytes
strerror errno = errno ∷ []

abbrev word : Bytes
word = 98 ∷ 99 ∷ []

abbrev old : Bytes
old = 48 ∷ 49 ∷ 50 ∷ 51 ∷ []

-- " abc" and a newline.
abbrev text : Bytes
text = (32 ∷ []) ++ (97 ∷ word) ++ (10 ∷ [])

-- The file "stdout" keeps the end of what was in it.
longer_file : (main strerror (start [] text old [])).1.output ≡ some (97 ∷ 98 ∷ 99 ∷ 51 ∷ [])
unfolding write_at
longer_file = refl

too_long : (main strerror (start [] (replicate 128 97) old [])).1.overrun ≡ true
too_long = refl

-- The second dup fails.
abbrev no_dup : List (Option ℕ)
no_dup = none ∷ none ∷ none ∷ none ∷ none ∷ none ∷ some 24 ∷ []

dup_fails : (main strerror (start [] text old no_dup)).0 ≡ exited 24
dup_fails = refl

-- What a failing open prints comes to the terminal.
open_fails_test :
    (main strerror (start [] text old (some 13 ∷ []))).1.shown
    ≡ error_colon ++ strerror 13 ++ 10 ∷ []
open_fails_test = refl

-- A zero byte in the word ends what is printed.
zero_byte :
    (main strerror (start [] (97 ∷ 0 ∷ 98 ∷ []) old [])).1.output ≡ some (97 ∷ 49 ∷ 50 ∷ 51 ∷ [])
unfolding write_at
zero_byte = refl

redirects_example :
    let printed = c_string (97 ∷ word) in
    let r = main strerror (start (some terminal ∷ []) text old []) in
    (r.1.overrun ≡ leb room (length (97 ∷ word)))
    × (length (97 ∷ word) < room
        → (r.0 ≡ done tt)
          × (r.1.output ≡ some (printed ++ drop (length printed) old))
          × (r.1.shown ≡ [])
          × (at r.1.fds 0 ≡ some source)
          × (at r.1.fds 1 ≡ some sink)
          × (at r.1.fds 2 ≡ at (some terminal ∷ []) 0))
redirects_example =
    redirects strerror (some terminal ∷ []) (32 ∷ []) word (10 ∷ []) old 97 0 (refl, tt)
      (refl, (refl, (refl, tt))) refl
