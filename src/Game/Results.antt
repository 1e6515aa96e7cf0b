-- ===== src/Game/Results.antt =====
-- The files that game.c leaves.
use aup_assignments.Prelude.{ℕ, ◌≡◌, refl, ◌≢◌, Bool, true, false, Option, none, some, ◌++◌}
use aup_assignments.Unix.Bytes.{Bytes, bytes_eqb}
use aup_assignments.Unix.Proc.{done}
use aup_assignments.Unix.Files.{Ofd}
use aup_assignments.Game.{own, scores, temp, niramay, main}
use aup_assignments.Game.Rounds.{started, line, odd_round, even_round, files_made}

-- If the user and the owner of the program are different and neither is the super-user, both may
-- create files in the directory, neither file is there, and no call fails for another reason than
-- permissions, then the program ends with 0, the file own holds the lines of rounds 1 and 3 and
-- nothing else, the file scores those of rounds 2 and 4, and every other file is as before: no file
-- is written under the other user id.
pub each_in_its_file :
    (a b c : Ofd) (files : Bytes → Option Bytes) (may_write : Bytes → ℕ → Bool)
    (may_create : ℕ → Bool) (ruid euid : ℕ)
    → ruid ≢ euid
    → ruid ≢ 0
    → euid ≢ 0
    → may_create ruid ≡ true
    → may_create euid ≡ true
    → files own ≡ none
    → files scores ≡ none
    → let (r, t) = main (started a b c files may_write may_create ruid euid) in
      (r ≡ done 0)
      × (t.os.files own ≡ some (line 1 niramay ++ line 3 niramay))
      × (t.os.files scores ≡ some (line 2 temp ++ line 4 temp))
      × ((name : Bytes)
          → bytes_eqb name own ≡ false
          → bytes_eqb name scores ≡ false
          → t.os.files name ≡ files name)
unfolding main
each_in_its_file a b c files may_write may_create ruid euid ne zr ze cr ce fo fs =
    let (e0, v0) = files_made a b c files may_write may_create ruid euid ne zr ze cr ce fo fs in
    let (e1, v1) = odd_round ne v0 1 refl in
    let (e2, v2) = even_round ne v1 2 refl in
    let (e3, v3) = odd_round ne v2 3 refl in
    let (e4, v4) = even_round ne v3 4 refl in
    rw (e0, e1, e2, e3, e4) (refl, v4.mine, v4.theirs, v4.others)
