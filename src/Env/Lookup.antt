-- ===== src/Env/Lookup.antt =====
-- What getenv finds after setenv and unsetenv.
use aup_assignments.Prelude.{
  suc, ◌≡◌, ◌≢◌, refl, inl, inr, Bool, false, not, ◌&&◌, Option, none, some, List, [], ◌∷◌, arith,
  if◌then◌else◌, Bool-cases, length, drop,
}
use aup_assignments.Unix.Bytes.{Bytes}
use aup_assignments.Env.{has_equals, named, pair, has_entry, set_entry, remove_entries}
use aup_assignments.Env.Names.{named_unique, named-pair, drop-pair}

-- getenv: the value in the first entry of a name.
abbrev pub getenv : Bytes → List Bytes → Option Bytes
getenv name [] = none
getenv name (e ∷ es) =
    let rest = getenv name es in if named name e then some (drop (suc (length name)) e) else rest

pub getenv-set_entry :
    (name value : Bytes) (b : Bool) (es : List Bytes)
    → getenv name (set_entry name value b es)
      ≡ (if has_entry name es && not b then getenv name es else some value)
getenv-set_entry name value b [] = rw (named-pair name value, drop-pair name value) refl
getenv-set_entry name value b (e ∷ es) = elim (Bool-cases (named name e)) [
  | inl p ↦ elim (Bool-cases b) [
    | inl q ↦ rw (p, q, named-pair name value, drop-pair name value) refl
    | inr q ↦ rw (p, q, p) refl
  ]
  | inr p ↦ rw (p, p) (getenv-set_entry name value b es)
]

-- Other variables keep their values.
pub getenv-set_entry_other :
    (name value other : Bytes) (b : Bool) (es : List Bytes)
    → has_equals name ≡ false
    → has_equals other ≡ false
    → other ≢ name
    → getenv other (set_entry name value b es) ≡ getenv other es
getenv-set_entry_other name value other b [] hn ho d =
    elim (Bool-cases (named other (pair name value))) [
      | inl p ↦
          absurd (d (named_unique other name (pair name value) ho hn p (named-pair name value)))
      | inr p ↦ rw p refl
    ]
getenv-set_entry_other name value other b (e ∷ es) hn ho d = elim (Bool-cases (named name e)) [
  | inl p ↦ elim (Bool-cases (named other e)) [
    | inl q ↦ absurd (d (named_unique other name e ho hn q p))
    | inr q ↦ elim (Bool-cases (named other (pair name value))) [
      | inl r ↦
          absurd (d (named_unique other name (pair name value) ho hn r (named-pair name value)))
      | inr r ↦ elim (Bool-cases b) [ inl c ↦ rw (p, c, q, r) refl | inr c ↦ rw (p, c, q) refl ]
    ]
  ]
  | inr p ↦ rw (p, getenv-set_entry_other name value other b es hn ho d) refl
]

-- What setenv has added, unsetenv removes.
pub remove_entries-absent :
    (name : Bytes) (es : List Bytes) → has_entry name es ≡ false → remove_entries name es ≡ es
remove_entries-absent name [] h = refl
remove_entries-absent name (e ∷ es) h = elim (Bool-cases (named name e)) [
  | inl p ↦ absurd (ground arith)
  | inr p ↦ rw (p, remove_entries-absent name es (ground arith)) refl
]

pub remove_entries-set_entry :
    (name value : Bytes) (b : Bool) (es : List Bytes)
    → has_entry name es ≡ false
    → remove_entries name (set_entry name value b es) ≡ es
remove_entries-set_entry name value b [] h = rw (named-pair name value) refl
remove_entries-set_entry name value b (e ∷ es) h = elim (Bool-cases (named name e)) [
  | inl p ↦ absurd (ground arith)
  | inr p ↦ rw (p, p, remove_entries-set_entry name value b es (ground arith)) refl
]

pub getenv-remove_entries :
    (name : Bytes) (es : List Bytes) → getenv name (remove_entries name es) ≡ none
getenv-remove_entries name [] = refl
getenv-remove_entries name (e ∷ es) = elim (Bool-cases (named name e)) [
  | inl p ↦ rw p (getenv-remove_entries name es)
  | inr p ↦ rw (p, p) (getenv-remove_entries name es)
]

pub getenv-remove_entries_other :
    (name other : Bytes) (es : List Bytes)
    → has_equals name ≡ false
    → has_equals other ≡ false
    → other ≢ name
    → getenv other (remove_entries name es) ≡ getenv other es
getenv-remove_entries_other name other [] hn ho d = refl
getenv-remove_entries_other name other (e ∷ es) hn ho d = elim (Bool-cases (named name e)) [
  | inl p ↦ elim (Bool-cases (named other e)) [
    | inl q ↦ absurd (d (named_unique other name e ho hn q p))
    | inr q ↦ rw (p, q) (getenv-remove_entries_other name other es hn ho d)
  ]
  | inr p ↦ rw (p, getenv-remove_entries_other name other es hn ho d) refl
]
