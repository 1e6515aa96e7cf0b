-- ===== src/DotLinks/Tests.antt =====
-- Runs of is_symlink.c in a tree of three directories.
use aup_assignments.Prelude.{ℕ, ◌≡◌, refl, Option, none, some, [], ◌∷◌, ◌++◌, ◌==◌, if◌then◌else◌}
use aup_assignments.Unix.Proc.{exited}
use aup_assignments.DotLinks.{
  Step, dot, dotdot, test_dot_dotdot_symlink, aup, Tree, symlink, directory, other, inode, links,
  type_of, main,
}
use aup_assignments.DotLinks.Results.{known}

-- 2 is the root, with 3 for AUP and 4 in it.
abbrev entries : ℕ → Step → Option ℕ
entries n dot = some n
entries n dotdot = some (if n == 4 then 3 else 2)
entries n aup = if n == 2 then some 3 else none
entries n test_dot_dotdot_symlink = if n == 3 then some 4 else none

abbrev tree : Tree
tree = record {
  entry = entries;
  stat = λ n. record { st_ino = n; st_nlink = 2; st_mode = 16877 };
  errno = 2;
}

in_place : main tree 4 [] ≡ (exited 0, known tree 4 3 ++ inode aup 3 ∷ links aup 2 ∷ [])
unfolding main
in_place = refl

-- From the root, the second lstat fails.
elsewhere : (main tree 2 []).0 ≡ exited 2
unfolding main
elsewhere = refl

modes : (type_of 41471 ≡ symlink) × (type_of 16877 ≡ directory) × (type_of 33188 ≡ other)
modes = (refl, refl, refl)
