-- ===== src/FileInfo.antt =====
-- assignment_3/print_file_info.c: owner and type of every file in a directory.
pub mod Types
pub mod Results
mod Tests
use aup_assignments.Prelude.{
  ℕ, suc, ◌+◌, ◌*◌, ◌/◌, ◌%◌, Bool, true, false, not, ◌||◌, Option, none, some, List, [], ◌∷◌, ◌++◌,
  ◌==◌, if◌then◌else◌, ltb, length,
}
use aup_assignments.Unix.Bytes.{Bytes}
use aup_assignments.Unix.Proc.{Exec, done, exited, pure, exit, when, ◌>>=◌, ◌>>◌}

-- The result of a call, or the `errno` that it fails with.
pub data Result (A : Type 0) : Type 0 where
  ok : A → Result A
  error : ℕ → Result A

-- opendir with all that readdir gives, lstat with mode and owner, and the name of getpwuid.
pub record World : Type 0 where
  pub entries : Bytes → Result (List Bytes)
  pub lstat : Bytes → Result (ℕ × ℕ)
  pub owner : ℕ → Option Bytes

pub data FileType : Type 0 where
  regular directory character block link fifo socket unknown : FileType

-- The lines that the program prints: how it is to be called, the heading, and path, owner and type of
-- a file.
pub data Line : Type 0 where
  usage : Line
  heading : Line
  info : Bytes → Bytes → FileType → Line

-- `argument` is argv[1] and `behind` the string that stands behind it in memory, where the system puts
-- the first variable of the environment; `overrun` is set by a write past the end of a block that
-- malloc has made.
pub record State : Type 0 where
  pub argument : Bytes
  pub behind : Bytes
  pub overrun : Bool
  pub out : List Line

abbrev pub Proc : Type 0 → Type 0
Proc A = State → Exec A × State

abbrev pub slash : ℕ
slash = 47

-- S_IFMT is 0170000, the bits 12 to 15.
abbrev pub masked : ℕ → ℕ
masked mode = (mode / 4096) % 16 * 4096

-- The comparisons with S_IFREG, S_IFDIR, S_IFCHR, S_IFBLK, S_IFLNK, S_IFIFO and S_IFSOCK.
abbrev pub type_of_masked : ℕ → FileType
type_of_masked m =
    if m == 32768
    then regular
    else if m == 16384
    then directory
    else if m == 8192
    then character
    else if m == 24576
    then block
    else if m == 40960
    then link
    else if m == 4096
    then fifo
    else if m == 49152
    then socket
    else unknown

abbrev pub file_type : ℕ → FileType
file_type mode = type_of_masked (masked mode)

abbrev pub ends_in_slash : Bytes → Bool
ends_in_slash [] = false
ends_in_slash (c ∷ []) = c == slash
ends_in_slash (c ∷ d ∷ cs) = ends_in_slash (d ∷ cs)

-- strcat(argv[1], "/"): the zero at its end goes to the first byte of the string behind.
abbrev pub add_slash : Proc (Unit {0})
add_slash s = (done tt, record s { argument = s.argument ++ slash ∷ []; behind = [] })

abbrev pub print : Line → Proc (Unit {0})
print l s = (done tt, record s { out = s.out ++ l ∷ [] })

abbrev pub print_info : Bytes → ℕ → Option Bytes → Proc (Unit {0})
print_info input mode none s = (exited 0, s)
print_info input mode (some owner) s = print (info input owner (file_type mode)) s

abbrev pub examine : World → Bytes → Result (ℕ × ℕ) → Proc (Unit {0})
examine world input (error e) s = (exited e, s)
examine world input (ok (mode, uid)) s = print_info input mode (world.owner uid) s

-- malloc of the length of the argument and of the name and one more, strcpy and strcat.
abbrev pub build : Bytes → ℕ → Bytes → Proc (Unit {0})
build argument len name s = (
  done tt,
  record s { overrun = s.overrun || ltb (len + length name + 1) (suc (length (argument ++ name))) },
)

-- The loop over what readdir gives, with `len` as computed before it.
abbrev pub print_files : World → ℕ → List Bytes → Proc (Unit {0})
print_files world len [] s = (done tt, s)
print_files world len (name ∷ names) s =
    (do
      build s.argument len name
      examine world (s.argument ++ name) (world.lstat (s.argument ++ name))
      print_files world len names)
      s

-- The variable `len`.
abbrev pub length_of : Bytes → ℕ
length_of argument = if ends_in_slash argument then length argument else suc (length argument)

abbrev pub list_files : World → Bytes → Result (List Bytes) → Proc (Unit {0})
list_files world argument (error e) = exit e
list_files world argument (ok names) = do
  when (not (ends_in_slash argument)) add_slash
  print heading
  print_files world (length_of argument) names
  exit 0

-- main, with `argc` and argv[1].
abbrev pub main : World → ℕ → Proc (Unit {0})
main world argc s =
    let run = list_files world s.argument (world.entries s.argument) s in
    if argc == 2 then run else (exited 0, record s { out = s.out ++ usage ∷ [] })
