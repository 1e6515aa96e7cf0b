-- ===== src/Redirect/Results.antt =====
-- Where the word goes that redirect.c reads.
use aup_assignments.Prelude.{
  ℕ, suc, ◌<◌, ◌≡◌, refl, ◌∙◌, true, false, Option, none, some, List, [], ◌∷◌, ◌++◌, leb, length,
  drop, All,
}
use aup_assignments.Unix.Bytes.{Bytes, write_at-start}
use aup_assignments.Unix.Proc.{done}
use aup_assignments.Redirect.{
  Target, terminal, source, sink, State, room, at, is_space, up_to_space, first_word, contents,
  store, body, main, c_string,
}
use aup_assignments.Redirect.Tables.{at-alloc, opened_closed, at-opened_closed, first_word-append}

-- Descriptors 0 and 1 on the terminal, `rest` behind them, and both files there.
abbrev pub start : List (Option Target) → Bytes → Bytes → List (Option ℕ) → State
start rest text old faults = record {
  fds = some terminal ∷ some terminal ∷ rest;
  input = some text;
  output = some old;
  string = none;
  buffer = [];
  shown = [];
  overrun = false;
  faults = faults;
}

finished : List (Option Target) → Bytes → Bytes → State
finished rest text old =
    let s = store (first_word text) (start rest text old []) in
    record s {
      fds = some source ∷ some sink ∷ opened_closed (opened_closed rest source) sink;
      buffer = c_string (contents s.string);
    }

body_lem :
    (strerror : ℕ → Bytes) (rest : List (Option Target)) (text old : Bytes)
    → body strerror (start rest text old []) ≡ (done tt, finished rest text old)
unfolding finished
body_lem strerror rest text old =
    rw
      (
        at-alloc rest source,
        at-alloc rest source,
        at-alloc (opened_closed rest source) sink,
        at-alloc (opened_closed rest source) sink,
      )
      refl

-- If no call fails, and the file "stdin" is white space, a word, and then nothing or white space and
-- more, the array overflows exactly if the word has 128 bytes or more. If it has not, the program puts
-- the word, up to its first zero byte, at the start of the file "stdout", whose other bytes stay, and
-- nothing on the terminal; and descriptors 0 and 1 stand for the two files in the end, and all others
-- for what they stood for.
pub redirects :
    (strerror : ℕ → Bytes) (rest : List (Option Target)) (blanks word after old : Bytes) (c k : ℕ)
    → All (λ b. is_space b ≡ true) blanks
    → All (λ b. is_space b ≡ false) (c ∷ word)
    → up_to_space after ≡ []
    → let printed = c_string (c ∷ word) in
      let r = main strerror (start rest (blanks ++ (c ∷ word) ++ after) old []) in
      (r.1.overrun ≡ leb room (length (c ∷ word)))
      × (length (c ∷ word) < room
          → (r.0 ≡ done tt)
            × (r.1.output ≡ some (printed ++ drop (length printed) old))
            × (r.1.shown ≡ [])
            × (at r.1.fds 0 ≡ some source)
            × (at r.1.fds 1 ≡ some sink)
            × (at r.1.fds (suc (suc k)) ≡ at rest k))
unfolding finished
redirects strerror rest blanks word after old c k s w e =
    rw
      (
        body_lem strerror rest (blanks ++ (c ∷ word) ++ after) old,
        first_word-append blanks word after c s w e,
        write_at-start old (c_string (c ∷ word)),
      )
      (
        refl,
        λ short. (
          refl,
          refl,
          refl,
          refl,
          refl,
          at-opened_closed (opened_closed rest source) sink k ∙ at-opened_closed rest source k,
        ),
      )
