-- ===== src/DotLinks.antt =====
-- test_dot_dotdot_symlink/is_symlink.c: what "." and ".." stand for.
pub mod Results
mod Tests
use aup_assignments.Prelude.{ℕ, Option, none, some, List, [], ◌∷◌, ◌++◌, ◌==◌, if◌then◌else◌}
use aup_assignments.FileInfo.{masked}
use aup_assignments.Unix.Proc.{Exec, done, exited, pure, exit, ◌>>=◌, ◌>>◌}

-- A step of a path: ".", "..", the directory of the program, and the one above that.
pub data Step : Type 0 where
  dot dotdot test_dot_dotdot_symlink aup : Step

pub record Stat : Type 0 where
  pub st_ino : ℕ
  pub st_nlink : ℕ
  pub st_mode : ℕ

-- The directories and their entries, by inode number, "." and ".." among them, and what lstat gives;
-- or the `errno` of a missing entry.
pub record Tree : Type 0 where
  pub entry : ℕ → Step → Option ℕ
  pub stat : ℕ → Stat
  pub errno : ℕ

pub data FileKind : Type 0 where
  directory symlink other : FileKind

pub data Line : Type 0 where
  inode links : Step → ℕ → Line
  file_type : Step → FileKind → Line

abbrev pub State : Type 0
State = List Line

abbrev pub Proc : Type 0 → Type 0
Proc A = State → Exec A × State

-- The walk along a path.
abbrev pub walk : Tree → Option ℕ → List Step → Option ℕ
walk tree none path = none
walk tree (some n) [] = some n
walk tree (some n) (x ∷ path) = walk tree (tree.entry n x) path

-- The comparisons of the masked mode with S_IFDIR and S_IFLNK.
abbrev pub type_of : ℕ → FileKind
type_of mode =
    if masked mode == 16384 then directory else if masked mode == 40960 then symlink else other

abbrev pub print : Line → Proc (Unit {0})
print l out = (done tt, out ++ l ∷ [])

abbrev pub found : Tree → Option ℕ → Proc Stat
found tree none out = (exited tree.errno, out)
found tree (some n) out = (done (tree.stat n), out)

-- lstat from the directory `cwd` on, and the return of `errno` if it fails.
abbrev pub lstat : Tree → ℕ → List Step → Proc Stat
lstat tree cwd path = found tree (walk tree (some cwd) path)

abbrev pub print_link : Step → Stat → Proc (Unit {0})
print_link x st = do print (inode x st.st_ino); print (links x st.st_nlink)

abbrev pub print_type : Step → Stat → Proc (Unit {0})
print_type x st = print (file_type x (type_of st.st_mode))

pub main : Tree → ℕ → Proc (Unit {0})
main tree cwd = do
  st ← lstat tree cwd (dot ∷ [])
  print_link dot st
  print_type dot st
  st2 ← lstat tree cwd (dotdot ∷ test_dot_dotdot_symlink ∷ [])
  print_link test_dot_dotdot_symlink st2
  st3 ← lstat tree cwd (dotdot ∷ [])
  print_link dotdot st3
  print_type dotdot st3
  st4 ← lstat tree cwd (dotdot ∷ dotdot ∷ aup ∷ [])
  print_link aup st4
  exit 0
