-- ===== src/Rdwr/Tests.antt =====
-- Runs of rdwr.c, and its theorems at an input.
use aup_assignments.Prelude.{
  ◌-◌, ◌^◌, ◌≡◌, refl, false, none, some, [], ◌∷◌, ◌++◌, arith, replicate, if◌then◌else◌,
}
use aup_assignments.Unix.Bytes.{Bytes, bytes_eqb, write_at}
use aup_assignments.Unix.Proc.{done}
use aup_assignments.Unix.Files.{Os, open_file, close, write, read}
use aup_assignments.Rdwr.{main, hello}
use aup_assignments.Rdwr.Results.{appends_hello}

abbrev file : Bytes
file = b'f' ∷ []

abbrev disk : Bytes → Os
disk c = record {
  files = λ name. if bytes_eqb name file then some c else none;
  fds = none ∷ [];
  faults = [];
  errno = 0;
}

abbrev twelve : Bytes
twelve = replicate 12 b'x'

-- With three bytes of 255 in `ch` from the start, a byte 255 stops the loop: "hello" overwrites what
-- follows it.
stops_early :
    (main 20
        (2 ^ 24 - 1)
        ([] ∷ file ∷ [])
        (disk (replicate 10 b'x' ++ 255 ∷ replicate 6 b'y'))).1.files
      file
    ≡ some (replicate 10 b'x' ++ 255 ∷ hello ++ b'y' ∷ [])
unfolding main open_file read write close write_at
stops_early = refl

appends_hello_example :
    (t : Os) × (main 20 0 ([] ∷ file ∷ []) (disk twelve) ≡ (done (some 0), t))
    × (t.files file ≡ some (twelve ++ hello))
    × ((name : Bytes) → bytes_eqb name file ≡ false → t.files name ≡ (disk twelve).files name)
appends_hello_example =
    appends_hello 20 0 (disk twelve) [] file twelve refl refl (omega arith) (refl, (refl, tt))
      (omega arith)
