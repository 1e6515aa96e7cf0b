-- ===== src/FileInfo/Tests.antt =====
-- print_file_info.c on a directory of two files, with a byte for each character.
use aup_assignments.Prelude.{◌+◌, ◌*◌, ◌≡◌, refl, some, [], ◌∷◌, ◌++◌, if◌then◌else◌}
use aup_assignments.Unix.Bytes.{Bytes, bytes_eqb}
use aup_assignments.Unix.Proc.{exited}
use aup_assignments.FileInfo.{ok, error, World, usage, heading, info, regular, main}
use aup_assignments.FileInfo.Results.{prefix, none_left, next, at, left_behind, lists_all}

-- The directory "d" with the files "a" and "b"; "d/b" is gone when lstat comes to it.
abbrev d : Bytes
d = 100 ∷ []

abbrev a : Bytes
a = 97 ∷ []

abbrev b : Bytes
b = 98 ∷ []

abbrev me : Bytes
me = 109 ∷ 101 ∷ []

abbrev variable : Bytes
variable = 65 ∷ 61 ∷ 49 ∷ []

abbrev world : World
world = record {
  entries = λ _. ok (a ∷ b ∷ []);
  lstat = λ p. if bytes_eqb p (100 ∷ 47 ∷ 97 ∷ []) then ok (8 * 4096 + 420, 1000) else error 2;
  owner = λ _. some me;
}

abbrev small : World
small = record world { entries = λ _. ok (a ∷ []) }

-- Without an argument only the usage is printed.
no_argument : main world 1 (at d variable []) ≡ (exited 0, at d variable (usage ∷ []))
no_argument = refl

lists_all_example : main small 2 (at d variable []) ≡ (
  exited 0,
  at (prefix d) (left_behind d variable) (heading ∷ info (prefix d ++ a) me regular ∷ []),
)
lists_all_example =
    lists_all small d variable (a ∷ []) (info (prefix d ++ a) me regular ∷ []) refl
      (next refl refl none_left)

-- The argument "d" has no slash at its end, so that the variable behind it is lost.
variable_lost : left_behind d variable ≡ []
variable_lost = refl
