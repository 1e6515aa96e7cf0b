-- ===== src/Realpath/Listing.antt =====
-- The walk over the names in the directory.
use aup_assignments.Prelude.{
  ℕ, suc, ◌<◌, ◌≡◌, refl, Bool, true, false, ◌&&◌, ◌||◌, Option, none, some, List, [], ◌∷◌, ◌++◌,
  append_assoc, append-nil, arith, leb, ltb, length, length-append,
}
use aup_assignments.Unix.Bytes.{Bytes}
use aup_assignments.Realpath.{path_max, max_files, Walk, exceeds, read_names}
use aup_assignments.Realpath.Paths.{basename}
use aup_assignments.Realpath.Chains.{Chain, ended, or-false, at, resolve-Chain}

-- The names in a directory, and for each that is a link the last part of the path where its chain
-- ends, with fuel for the longest chain.
pub data Listing (links : Bytes → Option Bytes) (fuel : ℕ)
    : List Bytes → List (Option Bytes) → Type 0 where
  empty : Listing links fuel [] []
  file :
      {name : Bytes} {names : List Bytes} {ends : List (Option Bytes)}
      → links name ≡ none
      → exceeds path_max name ≡ false
      → Listing links fuel names ends
      → Listing links fuel (name ∷ names) ends
  link :
      {name last : Bytes} {n : ℕ} {names : List Bytes} {ends : List (Option Bytes)}
      → Chain links name name (suc n) last
      → exceeds path_max name ≡ false
      → suc n < fuel
      → Listing links fuel names ends
      → Listing links fuel (name ∷ names) (some (basename last) ∷ ends)

grown :
    (strs : List (Option Bytes)) (x : Option Bytes) (o : Bool)
    → o ≡ ltb max_files (length strs)
    → (o || true && leb max_files (length strs)) ≡ ltb max_files (length (strs ++ x ∷ []))
grown strs x o h = ground (arith, h, length-append strs (x ∷ []))

pub read_names-Listing :
    {links : Bytes → Option Bytes} {fuel : ℕ} {names : List Bytes} {ends : List (Option Bytes)}
    (b : Option Bytes) (p : Bytes) (f o : Bool) (strs : List (Option Bytes))
    → 0 < fuel
    → o ≡ ltb max_files (length strs)
    → Listing links fuel names ends
    → (w : Walk) × (read_names links fuel names (at b p f o) strs ≡ some (w, strs ++ ends))
      × (w.overrun ≡ ltb max_files (length (strs ++ ends)))
read_names-Listing b p f o strs h e empty =
    (at b p f o, rw (append-nil strs) refl, rw (append-nil strs) e)
read_names-Listing {links} {fuel} b p f o strs h e (file {name} {names} {ends} k s rest) =
    let here : Chain links name name 0 name = ended k in
    let (w, r, g) = read_names-Listing b name false o strs h e rest in
    (w, rw (read_names, s, or-false o, resolve-Chain fuel b false o here h, or-false o) r, g)
read_names-Listing {links} {fuel} b p f o strs h e
      (link {name} {last} {n} {names} {ends} c s k rest) =
    let (w, r, g) =
      read_names-Listing (some last) last true (o || true && leb max_files (length strs))
        (strs ++ some (basename last) ∷ []) h (grown strs (some (basename last)) o e) rest in
    let same : (strs ++ some (basename last) ∷ []) ++ ends ≡ strs ++ some (basename last) ∷ ends =
      append_assoc strs (some (basename last) ∷ []) ends in
    (w, rw (read_names, s, or-false o, resolve-Chain fuel b false o c k, ← same) r, rw (← same) g)
