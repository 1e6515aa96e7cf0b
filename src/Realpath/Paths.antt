-- ===== src/Realpath/Paths.antt =====
-- What realpath.c uses of string.h and libgen.h: strstr, dirname and basename.
use aup_assignments.Prelude.{ℕ, Bool, true, false, ◌&&◌, ◌||◌, [], ◌∷◌, ◌==◌, if◌then◌else◌}
use aup_assignments.Unix.Bytes.{Bytes}

abbrev pub slash : ℕ
slash = 47

-- The strings "." and "..".
abbrev pub dot : Bytes
dot = 46 ∷ []

abbrev pub dots : Bytes
dots = 46 ∷ 46 ∷ []

abbrev pub is_prefix : Bytes → Bytes → Bool
is_prefix [] ys = true
is_prefix (x ∷ xs) [] = false
is_prefix (x ∷ xs) (y ∷ ys) = x == y && is_prefix xs ys

-- strstr, as a test.
abbrev pub strstr : Bytes → Bytes → Bool
strstr [] needle = is_prefix needle []
strstr (c ∷ cs) needle = is_prefix needle (c ∷ cs) || strstr cs needle

abbrev pub is_empty : Bytes → Bool
is_empty [] = true
is_empty (c ∷ cs) = false

-- Without the slashes at its end.
abbrev pub strip : Bytes → Bytes
strip [] = []
strip (c ∷ cs) = let rest = strip cs in if is_empty rest && c == slash then [] else c ∷ rest

abbrev pub has_slash : Bytes → Bool
has_slash [] = false
has_slash (c ∷ cs) = c == slash || has_slash cs

-- What stands after the last slash, and what stands before it, that slash included.
abbrev pub after_slash : Bytes → Bytes
after_slash [] = []
after_slash (c ∷ cs) =
    let rest = after_slash cs in if has_slash cs then rest else if c == slash then cs else c ∷ cs

abbrev pub up_to_slash : Bytes → Bytes
up_to_slash [] = []
up_to_slash (c ∷ cs) =
    let rest = up_to_slash cs in
    if has_slash cs then c ∷ rest else if c == slash then c ∷ [] else []

-- The whole path or the directory is one of slashes only.
abbrev pub root_or : Bytes → Bytes
root_or [] = slash ∷ []
root_or (c ∷ cs) = c ∷ cs

abbrev pub basename : Bytes → Bytes
basename path =
    if is_empty path
    then dot
    else if is_empty (strip path)
    then slash ∷ []
    else after_slash (strip path)

abbrev pub dirname : Bytes → Bytes
dirname path =
    if is_empty path
    then dot
    else if is_empty (strip path)
    then slash ∷ []
    else if has_slash (strip path)
    then root_or (strip (up_to_slash (strip path)))
    else dot
