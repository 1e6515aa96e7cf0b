-- ===== src/Game/Tests.antt =====
-- Runs of game.c, and its theorem at user ids 1000 and 1001.
use aup_assignments.Prelude.{
  ℕ, ◌≡◌, refl, true, false, Option, none, some, [], ◌∷◌, ◌++◌, arith, if◌then◌else◌,
}
use aup_assignments.Unix.Bytes.{Bytes, bytes_eqb, write_at}
use aup_assignments.Unix.Proc.{done}
use aup_assignments.Unix.Files.{Ofd}
use aup_assignments.Game.{State, own, scores, temp, niramay, main}
use aup_assignments.Game.Rounds.{started, line}
use aup_assignments.Game.Results.{each_in_its_file}

abbrev tty : Ofd
tty = record { name = []; offset = 0; reads = true; writes = true; appends = false }

abbrev other : Bytes
other = b'x' ∷ []

abbrev disk : Bytes → Option Bytes
disk name = if bytes_eqb name other then some (b'y' ∷ []) else none

abbrev game : ℕ → ℕ → State
game ruid euid = started tty tty tty disk (λ name u. false) (λ u. true) ruid euid

-- Without the set-user-id bit both ids are those of the user, and every line is in both files.
same_user :
    ((main (game 1000 1000)).1.os.files own
      ≡ some (line 1 temp ++ line 2 temp ++ line 3 temp ++ line 4 temp))
    × ((main (game 1000 1000)).1.os.files scores
        ≡ some (line 1 temp ++ line 2 temp ++ line 3 temp ++ line 4 temp))
unfolding main write_at
same_user = (refl, refl)

-- If the program belongs to the super-user, its rounds write the file of the user as well.
super_user :
    (main (game 1000 0)).1.os.files own
    ≡ some (line 1 niramay ++ line 2 temp ++ line 3 niramay ++ line 4 temp)
unfolding main write_at
super_user = refl

-- A user who may not create files gets neither file, and the program still ends with 0.
no_directory :
    let s = record (game 1000 1001) { may_create = λ u. false } in
    ((main s).0 ≡ done 0) × ((main s).1.os.files own ≡ none)
unfolding main write_at
no_directory = (refl, refl)

each_in_its_file_example :
    let (r, t) = main (game 1000 1001) in
    (r ≡ done 0)
    × (t.os.files own ≡ some (line 1 niramay ++ line 3 niramay))
    × (t.os.files scores ≡ some (line 2 temp ++ line 4 temp))
    × ((name : Bytes)
        → bytes_eqb name own ≡ false
        → bytes_eqb name scores ≡ false
        → t.os.files name ≡ disk name)
each_in_its_file_example =
    each_in_its_file tty tty tty disk (λ name u. false) (λ u. true) 1000 1001 (ground arith)
      (ground arith) (ground arith) refl refl refl refl
