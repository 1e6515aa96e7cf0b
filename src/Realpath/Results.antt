-- ===== src/Realpath/Results.antt =====
-- What realpath.c prints.
use aup_assignments.Prelude.{
  ℕ, zero, suc, ◌+◌, ◌<◌, ◌≡◌, refl, ap, Bool, true, false, ◌||◌, inl, inr, Option, none, some,
  List, [], ◌∷◌, arith, Bool-cases, ltb, length, length-append,
}
use aup_assignments.Unix.Bytes.{Bytes}
use aup_assignments.Realpath.{
  path_max, max_files, World, currdir_overruns, exceeds, join, follow, resolve, show_all, name,
  main,
}
use aup_assignments.Realpath.Paths.{slash, dot, dots, strstr, basename, dirname}
use aup_assignments.Realpath.Chains.{base, Chain, or-false, at, follow_lem, resolve-Chain}
use aup_assignments.Realpath.Listing.{Listing, read_names-Listing}

-- If a chain of one or more symbolic links leads from the argument to a path that is no link, and the
-- program puts no directory before a target, since the directory it looks at has a dot in its name
-- (as "." has), it prints the last part of that path and nothing else. It then writes past no buffer.
-- Every string is to fit PATH_MAX, also the current directory with a slash; one test of the loop more than there are links is enough.
pub resolves_path :
    (world : World) (fuel n : ℕ) (path last : Bytes)
    → world.limit ≡ true
    → currdir_overruns world.cwd ≡ false
    → exceeds path_max path ≡ false
    → Chain world.links path path (suc n) last
    → suc n < fuel
    → main world fuel (path ∷ []) ≡ some (name (basename last) ∷ [], false)
resolves_path world fuel n path last l d s c h =
    rw (l, d, s, resolve-Chain fuel none false false c h) refl

-- Without an argument, in a directory of which every name is no link or begins a chain as for a single
-- path, the program prints the last part of the path where each link ends, in the order of the
-- directory, or that it has failed if there is no link. It writes past the array `strs` if there are
-- more than 256 links, and past nothing otherwise. The current directory with a slash is to fit
-- PATH_MAX.
pub lists_links :
    (world : World) (fuel : ℕ) (names : List Bytes) (ends : List (Option Bytes))
    → world.limit ≡ true
    → currdir_overruns world.cwd ≡ false
    → world.names ≡ some names
    → 0 < fuel
    → Listing world.links fuel names ends
    → main world fuel [] ≡ some (show_all ends, ltb max_files (length ends))
lists_links world fuel names ends l d e h c =
    let (w, r, g) = read_names-Listing none [] false false [] h refl c in rw (l, d, e, r, g) refl

-- The first round of the loop where the directory is put before the target.
follow_directory :
    (path target : Bytes)
    → strstr (dirname path) dot ≡ false
    → exceeds path_max target ≡ false
    → exceeds path_max (join (dirname path) target) ≡ false
    → follow path target (at none path false false) ≡ record {
      buf1 = some (join (dirname path) target);
      room = suc (length path);
      buf2 = join (dirname path) target;
      flag = true;
      overrun = exceeds (suc (length path)) (join (dirname path) target);
    }
follow_directory path target d t j = elim (Bool-cases (strstr target dots)) [
  | inl c ↦
      rw (c, d, t, j, or-false (exceeds (suc (length path)) (join (dirname path) target))) refl
  | inr c ↦
      rw (c, d, t, j, or-false (exceeds (suc (length path)) (join (dirname path) target))) refl
]

resolve_directory :
    (links : Bytes → Option Bytes) (fuel : ℕ) (path target : Bytes)
    → strstr (dirname path) dot ≡ false
    → links path ≡ some target
    → links (join (dirname path) target) ≡ none
    → exceeds path_max target ≡ false
    → exceeds path_max (join (dirname path) target) ≡ false
    → resolve links path (suc (suc fuel)) (at none path false false)
      ≡ some (record {
        buf1 = some (join (dirname path) target);
        room = suc (length path);
        buf2 = join (dirname path) target;
        flag = true;
        overrun = exceeds (suc (length path)) (join (dirname path) target);
      })
resolve_directory links fuel path target d k e t j =
    rw (resolve, k, follow_directory path target d t j, e)
      (ap some (follow_directory path target d t j))

longer :
    (m : ℕ) (dir target : Bytes)
    → exceeds (suc m) (join dir target) ≡ ltb m (length dir + suc (length target))
longer m dir target = ground (arith, length-append dir (slash ∷ target))

-- If the argument is a link, its directory has no dot in its name, and that directory followed by the
-- target is no link, the program prints the last part of the target put behind the directory. It
-- writes past the block that strdup has made exactly if directory, slash and target are together longer
-- than the argument, and past another one only if getcwd fails or the current directory with a slash
-- does not fit PATH_MAX. Every string is to fit PATH_MAX; two tests of the loop are enough.
pub directory_overruns :
    (world : World) (fuel : ℕ) (path target : Bytes)
    → world.limit ≡ true
    → strstr (dirname path) dot ≡ false
    → world.links path ≡ some target
    → world.links (join (dirname path) target) ≡ none
    → exceeds path_max path ≡ false
    → exceeds path_max target ≡ false
    → exceeds path_max (join (dirname path) target) ≡ false
    → main world (suc (suc fuel)) (path ∷ [])
      ≡ some (
        name (basename (join (dirname path) target)) ∷ [],
        currdir_overruns world.cwd
            || ltb (length path) (length (dirname path) + suc (length target)),
      )
directory_overruns world fuel path target l d k e s t j =
    rw
      (
        l,
        s,
        resolve_directory world.links fuel path target d k e t j,
        longer (length path) (dirname path) target,
      )
      refl

-- If the argument is one of a set of links each of which leads to one of the set, without a directory
-- put before a target, the program tests the condition of its loop again and again: however many tests
-- it is given, it has not come to an end.
pub cycle_never_ends :
    (world : World) (Cyclic : Bytes → Type 0) (path : Bytes)
    → ((p : Bytes)
        → Cyclic p
        → (target : Bytes) × (world.links p ≡ some target)
          × (strstr (dirname (base path p target)) dot ≡ true)
          × (exceeds path_max target ≡ false)
          × Cyclic target)
    → Cyclic path
    → world.limit ≡ true
    → exceeds path_max path ≡ false
    → (fuel : ℕ) → main world fuel (path ∷ []) ≡ none
cycle_never_ends world Cyclic path go c l s fuel =
    rw (l, s, walks_on fuel none path false false c) refl
  where
    walks_on :
        (n : ℕ) (b : Option Bytes) (p : Bytes) (f o : Bool)
        → Cyclic p
        → resolve world.links path n (at b p f o) ≡ none
    walks_on zero b p f o c = refl
    walks_on (suc n) b p f o c =
        let (t, e, d, k, c') = go p c in
        rw (resolve, e, follow_lem path p t b f o d k) (walks_on n (some t) t true o c')
