-- ===== src/Unix/Frame.antt =====
-- What a call on one descriptor leaves of another one.
use aup_assignments.Prelude.{
  ℕ, zero, suc, ◌+◌, ◌≡◌, refl, ap, ◌∙◌, ◌≢◌, true, false, Option, none, some, List, [], ◌∷◌, arith,
  length, take, drop, get_elem?, set,
}
use aup_assignments.Prelude.Int.{pos}
use aup_assignments.Unix.Bytes.{Bytes, bytes_eqb}
use aup_assignments.Unix.Proc.{done}
use aup_assignments.Unix.Files.{Ofd, Os, alloc, lowest, join, read}
use aup_assignments.Unix.Lemmas.{IsOpen, wrote, moved, opened_at, read_lem}

join-set_ne :
    (fds : List (Option Ofd)) (k j : ℕ) (o : Option Ofd)
    → k ≢ j
    → join (get_elem? (set fds k o) j) ≡ join (get_elem? fds j)
join-set_ne [] k j o h = refl
join-set_ne (x ∷ fds) zero zero o h = absurd (h refl)
join-set_ne (x ∷ fds) zero (suc j) o h = refl
join-set_ne (x ∷ fds) (suc k) zero o h = refl
join-set_ne (x ∷ fds) (suc k) (suc j) o h = join-set_ne fds k j o (λ e. h (ap suc e))

-- The lowest free descriptor is not an open one.
pub lowest-ne :
    (fds : List (Option Ofd)) (j : ℕ) {d : Ofd} → join (get_elem? fds j) ≡ some d → lowest fds ≢ j
lowest-ne [] j h = cc
lowest-ne (none ∷ fds) zero h = cc
lowest-ne (none ∷ fds) (suc j) h = omega arith
lowest-ne (some x ∷ fds) zero h = omega arith
lowest-ne (some x ∷ fds) (suc j) h = omega (arith, lowest-ne fds j h)

join-alloc_ne :
    (fds : List (Option Ofd)) (j : ℕ) (e : Ofd) {d : Ofd}
    → join (get_elem? fds j) ≡ some d
    → join (get_elem? (alloc fds e) j) ≡ some d
join-alloc_ne [] j e h = cc
join-alloc_ne (none ∷ fds) zero e h = cc
join-alloc_ne (none ∷ fds) (suc j) e h = h
join-alloc_ne (some x ∷ fds) zero e h = h
join-alloc_ne (some x ∷ fds) (suc j) e h = join-alloc_ne fds j e h

module _ {s : Os} {j : ℕ} {d : Ofd} {c : Bytes} (o : IsOpen s j d c) where
  pub IsOpen-wrote :
      (k : ℕ) (e : Ofd) (x bs : Bytes)
      → k ≢ j
      → bytes_eqb d.name e.name ≡ false
      → IsOpen (wrote s k e x bs) j d c
  IsOpen-wrote k e x bs h n = record {
    calm = refl;
    at = join-set_ne s.fds k j _ h ∙ o.at;
    file = rw n o.file;
  }

  pub IsOpen-moved : (k : ℕ) (e : Ofd) (p : ℕ) → k ≢ j → IsOpen (moved s k e p) j d c
  IsOpen-moved k e p h = record {
    calm = refl;
    at = join-set_ne s.fds k j _ h ∙ o.at;
    file = o.file;
  }

  pub IsOpen-opened :
      (name x : Bytes) (e : Ofd)
      → bytes_eqb d.name name ≡ false
      → IsOpen (opened_at s name x e) j d c
  IsOpen-opened name x e n = record {
    calm = refl;
    at = join-alloc_ne s.fds j e o.at;
    file = rw n o.file;
  }

  pub IsOpen-closed :
      (k : ℕ) → k ≢ j → IsOpen (record s { faults = []; fds = set s.fds k none }) j d c
  IsOpen-closed k h = record {
    calm = refl;
    at = join-set_ne s.fds k j none h ∙ o.at;
    file = o.file;
  }

  -- A read of one byte, where `rest` is still to be read.
  pub read_one :
      (rest : Bytes)
      → d.reads ≡ true
      → drop d.offset c ≡ rest
      → read (pos j) 1 s ≡ (
        done (record { count = pos (length (take 1 rest)); bytes = take 1 rest }),
        moved s j d (d.offset + length (take 1 rest)),
      )
  read_one rest r e = rw (← e) (read_lem o 1 r)

pub drop-next :
    (n : ℕ) (xs : Bytes) {b : ℕ} {bs : Bytes} → drop n xs ≡ b ∷ bs → drop (n + 1) xs ≡ bs
drop-next zero [] h = cc
drop-next zero (x ∷ xs) h = cc
drop-next (suc n) [] h = cc
drop-next (suc n) (x ∷ xs) h =
    let e : suc n + 1 ≡ suc (n + 1) = omega arith in rw e (drop-next n xs h)
