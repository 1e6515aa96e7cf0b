-- ===== src/Realpath/Tests.antt =====
-- realpath.c on a few links, with a byte for each character.
use aup_assignments.Prelude.{
  ◌+◌, ◌≡◌, refl, ◌⊎◌, inl, inr, true, false, ◌||◌, Option, none, some, [], ◌∷◌, arith,
  if◌then◌else◌, ltb, length,
}
use aup_assignments.Unix.Bytes.{Bytes, bytes_eqb}
use aup_assignments.Realpath.{
  World, currdir_overruns, path_max, exceeds, join, show_all, max_files, name, unset, usage, main,
}
use aup_assignments.Realpath.Paths.{slash, strstr, dot, basename, dirname}
use aup_assignments.Realpath.Chains.{base, Chain, ended, linked}
use aup_assignments.Realpath.Listing.{Listing, empty, file, link}
use aup_assignments.Realpath.Results.{
  resolves_path, lists_links, directory_overruns, cycle_never_ends,
}

abbrev a : Bytes
a = 97 ∷ []

abbrev b : Bytes
b = 98 ∷ []

abbrev c : Bytes
c = 99 ∷ []

-- "d/a" and "d/../b".
abbrev in_d : Bytes
in_d = 100 ∷ 47 ∷ 97 ∷ []

abbrev above : Bytes
above = 46 ∷ 46 ∷ 47 ∷ 98 ∷ []

-- a leads to b and b to c, and d/a to ../b.
abbrev links : Bytes → Option Bytes
links p =
    if bytes_eqb p a
    then some b
    else if bytes_eqb p b
    then some c
    else if bytes_eqb p in_d
    then some above
    else none

abbrev world : World
world = record {
  links = links;
  names = some (a ∷ c ∷ b ∷ []);
  limit = true;
  cwd = some (slash ∷ []);
}

-- a and b lead to each other.
abbrev back_and_forth : Bytes → Option Bytes
back_and_forth p = if bytes_eqb p a then some b else if bytes_eqb p b then some a else none

abbrev looping : World
looping = record { links = back_and_forth; names = none; limit = true; cwd = some (slash ∷ []) }

-- A path that is no link: what is printed is in a block that has not been written to.
no_link : main world 1 (c ∷ []) ≡ some (unset ∷ [], false)
no_link = refl

two_arguments : main world 1 (a ∷ b ∷ []) ≡ some (usage ∷ unset ∷ [], false)
two_arguments = refl

from_b : Chain links b b 1 c
from_b = linked refl refl refl (ended refl)

from_a : Chain links a a 2 c
from_a = linked refl refl refl (linked refl refl refl (ended refl))

names_end : Listing links 3 (a ∷ c ∷ b ∷ []) (some c ∷ some c ∷ [])
names_end = link from_a refl (ground arith) (file refl refl (link from_b refl (ground arith) empty))

resolves_path_example : main world 3 (a ∷ []) ≡ some (name (basename c) ∷ [], false)
resolves_path_example = resolves_path world 3 1 a c refl refl refl from_a (ground arith)

lists_links_example : main world 3 [] ≡ some (show_all (some c ∷ some c ∷ []), ltb max_files 2)
lists_links_example =
    lists_links world 3 (a ∷ c ∷ b ∷ []) (some c ∷ some c ∷ []) refl refl refl (ground arith)
      names_end

directory_overruns_example :
    main world 2 (in_d ∷ [])
    ≡ some (
      name (basename (join (dirname in_d) above)) ∷ [],
      currdir_overruns world.cwd || ltb (length in_d) (length (dirname in_d) + 5),
    )
directory_overruns_example =
    directory_overruns world 0 in_d above refl refl refl refl refl refl refl

-- That is an overrun: "d/../b" in the block of "d/a".
overrun_seen : main world 2 (in_d ∷ []) ≡ some (name b ∷ [], true)
overrun_seen = refl

-- One of a and b.
abbrev Cyclic : Bytes → Type 0
Cyclic p = (p ≡ a) ⊎ (p ≡ b)

cycle_goes_on :
    (p : Bytes)
    → Cyclic p
    → (target : Bytes) × (back_and_forth p ≡ some target)
      × (strstr (dirname (base a p target)) dot ≡ true)
      × (exceeds path_max target ≡ false)
      × Cyclic target
cycle_goes_on p (inl e) = (b, rw e refl, refl, refl, inr refl)
cycle_goes_on p (inr e) = (a, rw e refl, refl, refl, inl refl)

cycle_never_ends_example : main looping 1000 (a ∷ []) ≡ none
cycle_never_ends_example = cycle_never_ends looping Cyclic a cycle_goes_on (inl refl) refl refl 1000
