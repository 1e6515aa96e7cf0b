-- ===== src/FileInfo/Results.antt =====
-- The lines that print_file_info.c prints, and where it stops.
use aup_assignments.Prelude.{
  ℕ, suc, ◌+◌, ◌≡◌, refl, ◌∙◌, false, inl, inr, some, List, [], ◌∷◌, ◌++◌, append_assoc, append-nil,
  arith, if◌then◌else◌, Bool-cases, ltb, length, length-append,
}
use aup_assignments.Unix.Bytes.{Bytes}
use aup_assignments.Unix.Proc.{done, exited, exit, ◌>>◌}
use aup_assignments.FileInfo.{
  ok, error, World, file_type, Line, heading, info, State, slash, ends_in_slash, print_files,
  length_of, main,
}

-- The directory as it stands before the names.
abbrev pub prefix : Bytes → Bytes
prefix dir = if ends_in_slash dir then dir else dir ++ slash ∷ []

-- The lines on files for which lstat succeeds and whose owner has a name.
pub data Described (world : World) (dir : Bytes) : List Bytes → List Line → Type 0 where
  none_left : Described world dir [] []
  next :
      {name owner : Bytes} {names : List Bytes} {lines : List Line} {mode uid : ℕ}
      → world.lstat (dir ++ name) ≡ ok (mode, uid)
      → world.owner uid ≡ some owner
      → Described world dir names lines
      → Described world dir (name ∷ names) (info (dir ++ name) owner (file_type mode) ∷ lines)

abbrev pub at : Bytes → Bytes → List Line → State
at dir behind out = record { argument = dir; behind = behind; overrun = false; out = out }

fits : (dir name : Bytes) → ltb (length dir + length name + 1) (suc (length (dir ++ name))) ≡ false
fits dir name = ground (arith, length-append dir name)

print_files-Described :
    (world : World) {dir : Bytes} (behind : Bytes) (before after : List Bytes) {lines : List Line}
    (out : List Line)
    → Described world dir before lines
    → print_files world (length dir) (before ++ after) (at dir behind out)
      ≡ print_files world (length dir) after (at dir behind (out ++ lines))
print_files-Described world {dir} behind before after out none_left = rw (append-nil out) refl
print_files-Described world {dir} behind before after out
      (next {name} {owner} {names} {lines} {mode} {uid} l o d) =
    rw (fits dir name, l, o)
      (print_files-Described world behind names after
          (out ++ info (dir ++ name) owner (file_type mode) ∷ []) d
        ∙ rw (append_assoc out (info (dir ++ name) owner (file_type mode) ∷ []) lines) refl)

print_files_all :
    (world : World) {dir : Bytes} (behind : Bytes) (names : List Bytes) {lines : List Line}
    (out : List Line)
    → Described world dir names lines
    → print_files world (length dir) names (at dir behind out)
      ≡ (done tt, at dir behind (out ++ lines))
print_files_all world behind names out d =
    (rw (append-nil names) at (print_files-Described world behind names [] out d))

length_of_lem : (dir : Bytes) → length_of dir ≡ length (prefix dir)
length_of_lem dir = elim (Bool-cases (ends_in_slash dir)) [
  | inl c ↦ rw c refl
  | inr c ↦ rw c (ground (arith, length-append dir (slash ∷ [])))
]

-- The program on a directory that it can open.
abbrev pub left_behind : Bytes → Bytes → Bytes
left_behind dir behind = if ends_in_slash dir then behind else []

opened :
    (world : World) (dir behind : Bytes) (names : List Bytes)
    → world.entries dir ≡ ok names
    → main world 2 (at dir behind [])
      ≡ (do print_files world (length (prefix dir)) names; exit 0)
          (at (prefix dir) (left_behind dir behind) (heading ∷ []))
opened world dir behind names e = elim (Bool-cases (ends_in_slash dir)) [
  | inl c ↦ rw (← length_of_lem dir, e, c) refl
  | inr c ↦ rw (← length_of_lem dir, e, c) refl
]

-- If the directory opens, lstat succeeds for all its files and their owners have names, the program
-- prints the heading and one line for each file in the order of the directory, and exits with 0. The
-- path of a file always fits the block made for it. If the argument does not end in a slash, the
-- string behind it in memory is empty afterwards.
pub lists_all :
    (world : World) (dir behind : Bytes) (names : List Bytes) (lines : List Line)
    → world.entries dir ≡ ok names
    → Described world (prefix dir) names lines
    → main world 2 (at dir behind [])
      ≡ (exited 0, at (prefix dir) (left_behind dir behind) (heading ∷ lines))
lists_all world dir behind names lines e d =
    opened world dir behind names e
    ∙ rw (print_files_all world (left_behind dir behind) names (heading ∷ []) d) refl

-- If lstat fails for a file, the program exits with that error, and has printed the heading and the
-- lines on the files before it, if their owners have names.
stops_at_failure :
    (world : World) (dir behind name : Bytes) (before after : List Bytes) (lines : List Line)
    (errno : ℕ)
    → world.entries dir ≡ ok (before ++ name ∷ after)
    → Described world (prefix dir) before lines
    → world.lstat (prefix dir ++ name) ≡ error errno
    → main world 2 (at dir behind [])
      ≡ (exited errno, at (prefix dir) (left_behind dir behind) (heading ∷ lines))
stops_at_failure world dir behind name before after lines errno e d f =
    opened world dir behind (before ++ name ∷ after) e
    ∙ rw
        (
          print_files-Described world (left_behind dir behind) before (name ∷ after) (heading ∷ [])
              d,
          fits (prefix dir) name,
          f,
        )
        refl
