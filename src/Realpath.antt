-- ===== src/Realpath.antt =====
-- assignment_2/realpath.c: a symbolic link, or each one in the current directory, followed to its end.
-- The links are a function from paths to targets, and a buffer is its string and the number of bytes
-- that it has; `overrun` is set by a write past the end of a buffer or an array, and by a strcat behind
-- what has not been set, after which C promises nothing. The limit of pathconf is PATH_MAX.
pub mod Paths
pub mod Chains
pub mod Listing
pub mod Results
mod Tests
use aup_assignments.Prelude.{
  ℕ, zero, suc, Bool, true, false, not, ◌&&◌, ◌||◌, Option, none, some, List, [], ◌∷◌, ◌++◌, map,
  leb, if◌then◌else◌, length,
}
use aup_assignments.Unix.Bytes.{Bytes}
use aup_assignments.Realpath.Paths.{slash, dot, dots, strstr, basename, dirname}

-- `links` is what readlink finds, `names` what readdir gives for the current directory, if opendir
-- succeeds, `limit` whether pathconf succeeds, and `cwd` what getcwd gives, if it does.
pub record World : Type 0 where
  pub links : Bytes → Option Bytes
  pub names : Option (List Bytes)
  pub limit : Bool
  pub cwd : Option Bytes

-- PATH_MAX and MAX_FILES_IN_DIR.
abbrev pub path_max : ℕ
path_max = 4096

abbrev pub max_files : ℕ
max_files = 256

-- The local variables of myrealpath: `buf1`, of which nothing is known before a first write, the size
-- of its block, `buf2`, and `flag`, which the branch for a single path does without.
pub record Walk : Type 0 where
  pub buf1 : Option Bytes
  pub room : ℕ
  pub buf2 : Bytes
  pub flag : Bool
  pub overrun : Bool

-- A string with the zero at its end is too long for a block.
abbrev pub exceeds : ℕ → Bytes → Bool
exceeds room text = leb room (length text)

abbrev pub join : Bytes → Bytes → Bytes
join dir text = dir ++ slash ∷ text

-- readlink and the zero after what it has read.
abbrev pub read_target : Bytes → Walk → Walk
read_target target w = record w {
  buf1 = some target;
  flag = true;
  overrun = w.overrun || exceeds w.room target;
}

-- The directory of `base` is put before the target, in the block that strdup has made for `base`.
abbrev pub put_directory : Bytes → Bytes → Walk → Walk
put_directory base target w = if strstr (dirname base) dot then w else record w {
  buf1 = some (join (dirname base) target);
  room = suc (length base);
  overrun = w.overrun || exceeds (suc (length base)) (join (dirname base) target);
}

-- strcpy(buf2, buf1).
abbrev pub copy_back : Option Bytes → Walk → Walk
copy_back none w = w
copy_back (some text) w = record w { buf2 = text; overrun = w.overrun || exceeds path_max text }

-- The body of both inner loops: `path` is the path that the walk has begun with.
abbrev pub follow : Bytes → Bytes → Walk → Walk
follow path target w =
    let u =
      if strstr target dots
      then put_directory w.buf2 target (read_target target w)
      else put_directory path target (read_target target w) in
    copy_back u.buf1 u

-- The inner loop, at most `fuel` tests of its condition; `none` if they are not enough.
abbrev pub resolve : (Bytes → Option Bytes) → Bytes → ℕ → Walk → Option Walk
resolve links path zero w = none
resolve links path (suc fuel) w = elim (links w.buf2) [
  | none ↦ some w
  | some target ↦ resolve links path fuel (follow path target w)
]

abbrev pub base_of : Option Bytes → Option Bytes
base_of none = none
base_of (some text) = some (basename text)

-- The start of a walk from `path`.
abbrev pub begin_at : Bytes → Walk → Walk
begin_at path w = record w {
  buf2 = path;
  flag = false;
  overrun = w.overrun || exceeds path_max path;
}

-- The array `strs` as far as it is filled, the memory behind its end included.
abbrev pub add_str : Walk → List (Option Bytes) → List (Option Bytes)
add_str w strs = if w.flag then strs ++ base_of w.buf1 ∷ [] else strs

abbrev pub check_strs : Walk → List (Option Bytes) → Walk
check_strs w strs = record w { overrun = w.overrun || w.flag && leb max_files (length strs) }

-- The outer loop, over the names in the directory.
abbrev pub read_names :
    (Bytes → Option Bytes)
    → ℕ
    → List Bytes
    → Walk
    → List (Option Bytes)
    → Option (Walk × List (Option Bytes))
read_names links fuel [] w strs = some (w, strs)
read_names links fuel (name ∷ names) w strs = elim (resolve links name fuel (begin_at name w)) [
  | none ↦ none
  | some v ↦ read_names links fuel names (check_strs v strs) (add_str v strs)
]

-- What myrealpath leaves: `strs` up to `pos`, which is empty if it returns NULL. An entry is `none` if
-- it was taken from a block that nothing has been written to.
pub record Result : Type 0 where
  pub strs : List (Option Bytes)
  pub overrun : Bool

abbrev pub null : Result
null = record { strs = []; overrun = false }

-- Both buffers after malloc.
abbrev pub fresh : Walk
fresh = record { buf1 = none; room = path_max; buf2 = []; flag = false; overrun = false }

abbrev pub of_path : Option Walk → Option Result
of_path none = none
of_path (some w) = some (record { strs = base_of w.buf1 ∷ []; overrun = w.overrun })

abbrev pub of_names : Option (Walk × List (Option Bytes)) → Option Result
of_names none = none
of_names (some (w, strs)) = some (record { strs = strs; overrun = w.overrun })

abbrev pub search_directory : World → ℕ → Option (List Bytes) → Option Result
search_directory world fuel none = some null
search_directory world fuel (some names) = of_names (read_names world.links fuel names fresh [])

abbrev pub search : World → ℕ → Option Bytes → Option Result
search world fuel none = search_directory world fuel world.names
search world fuel (some path) = of_path (resolve world.links path fuel (begin_at path fresh))

-- getcwd, and strcat of a slash behind what it has stored in `currdir`, which is not read again.
abbrev pub currdir_overruns : Option Bytes → Bool
currdir_overruns none = true
currdir_overruns (some dir) = exceeds path_max (dir ++ slash ∷ [])

abbrev pub after_currdir : Bool → Option Result → Option Result
after_currdir over none = none
after_currdir over (some r) = some (record r { overrun = over || r.overrun })

abbrev pub myrealpath : World → ℕ → Option Bytes → Option Result
myrealpath world fuel path =
    let found = after_currdir (currdir_overruns world.cwd) (search world fuel path) in
    if world.limit then found else some null

-- The lines that main prints. `unset` stands for what comes of a variable or of memory that has not
-- been set.
pub data Line : Type 0 where
  usage failed unset : Line
  name : Bytes → Line

abbrev pub show : Option Bytes → Line
show none = unset
show (some text) = name text

abbrev pub show_all : List (Option Bytes) → List Line
show_all [] = failed ∷ []
show_all (s ∷ strs) = map show (s ∷ strs)

abbrev pub report : Option Result → Option (List Line × Bool)
report none = none
report (some r) = some (show_all r.strs, r.overrun)

-- main on its arguments behind the program's name: the lines, and whether there was an overrun.
abbrev pub main : World → ℕ → List Bytes → Option (List Line × Bool)
main world fuel [] = report (myrealpath world fuel none)
main world fuel (path ∷ []) = report (myrealpath world fuel (some path))
main world fuel _ = some (usage ∷ unset ∷ [], false)
