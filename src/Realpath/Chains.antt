-- ===== src/Realpath/Chains.antt =====
-- Chains of symbolic links, and where a walk along one ends.
use aup_assignments.Prelude.{
  ℕ, zero, suc, ◌<◌, ◌≡◌, refl, Bool, true, false, ◌||◌, inl, inr, Option, none, some, arith,
  if◌then◌else◌, Bool-cases,
}
use aup_assignments.Unix.Bytes.{Bytes}
use aup_assignments.Realpath.{path_max, Walk, exceeds, follow, resolve}
use aup_assignments.Realpath.Paths.{dot, dots, strstr, dirname}

-- The path whose directory the program looks at for a target.
abbrev pub base : Bytes → Bytes → Bytes → Bytes
base path here target = if strstr target dots then here else path

-- `n` links lead from one path to another that is no link. The program puts no directory before any
-- of their targets, and each fits a buffer.
pub data Chain (links : Bytes → Option Bytes) (path : Bytes) : Bytes → ℕ → Bytes → Type 0 where
  ended : {p : Bytes} → links p ≡ none → Chain links path p 0 p
  linked :
      {p target last : Bytes} {n : ℕ}
      → links p ≡ some target
      → strstr (dirname (base path p target)) dot ≡ true
      → exceeds path_max target ≡ false
      → Chain links path target n last
      → Chain links path p (suc n) last

pub or-false : (b : Bool) → (b || false) ≡ b
or-false true = refl
or-false false = refl

abbrev pub at : Option Bytes → Bytes → Bool → Bool → Walk
at b p f o = record { buf1 = b; room = path_max; buf2 = p; flag = f; overrun = o }

pub follow_lem :
    (path p target : Bytes) (b : Option Bytes) (f o : Bool)
    → strstr (dirname (base path p target)) dot ≡ true
    → exceeds path_max target ≡ false
    → follow path target (at b p f o) ≡ at (some target) target true o
follow_lem path p target b f o h e = elim (Bool-cases (strstr target dots)) [
  | inl c ↦
      let k : strstr (dirname p) dot ≡ true = (rw c at h) in
      rw (c, k, e, or-false o, or-false o) refl
  | inr c ↦
      let k : strstr (dirname path) dot ≡ true = (rw c at h) in
      rw (c, k, e, or-false o, or-false o) refl
]

-- `buf1` and `flag` after `n` links.
abbrev pub last_target : ℕ → Bytes → Option Bytes → Option Bytes
last_target zero last b = b
last_target (suc n) last b = some last

abbrev pub moved : ℕ → Bool → Bool
moved zero f = f
moved (suc n) f = true

Chain-last :
    {links : Bytes → Option Bytes} {path p last : Bytes} {n : ℕ}
    → Chain links path p n last
    → last_target n last (some p) ≡ some last
Chain-last (ended e) = refl
Chain-last (linked e h k c) = refl

moved-true : (n : ℕ) → moved n true ≡ true
moved-true zero = refl
moved-true (suc n) = refl

pub resolve-Chain :
    {links : Bytes → Option Bytes} {path p last : Bytes} {n : ℕ} (fuel : ℕ) (b : Option Bytes)
    (f o : Bool)
    → Chain links path p n last
    → n < fuel
    → resolve links path fuel (at b p f o) ≡ some (at (last_target n last b) last (moved n f) o)
resolve-Chain zero b f o c h = absurd (omega arith)
resolve-Chain (suc fuel) b f o (ended e) h = rw (resolve, e) refl
resolve-Chain {path} (suc fuel) b f o (linked {p} {target} {n} e k s c) h =
    rw
      (
        resolve,
        e,
        follow_lem path p target b f o k s,
        resolve-Chain fuel (some target) true o c (omega arith),
        Chain-last c,
        moved-true n,
      )
      refl
