-- ===== src/Unix/Lemmas.antt =====
-- The file calls on an open descriptor while no fault is due: the result and the next state of each.
use aup_assignments.Prelude.{
  ℕ, zero, suc, ◌+◌, ◌≡◌, refl, ap, ◌∙◌, true, Option, none, some, List, [], ◌∷◌, arith, inl, inr,
  Option-cases, if◌then◌else◌, length, take, drop, get_elem?, set,
}
use aup_assignments.Prelude.Int.{pos}
use aup_assignments.Unix.Bytes.{Bytes, bytes_eqb_refl, write_at}
use aup_assignments.Unix.Proc.{done}
use aup_assignments.Unix.Files.{
  Ofd, Os, contents, Flags, update, lowest, alloc, join, write_pos, Whence, from_start, from_end,
  base, open_file, close, lseek, write, read,
}

pub update_self :
    (files : Bytes → Option Bytes) (name c : Bytes) → update files name c name ≡ some c
update_self files name c = rw (bytes_eqb_refl name) refl

join-set :
    (fds : List (Option Ofd)) (k : ℕ) (d e : Ofd)
    → join (get_elem? fds k) ≡ some d
    → join (get_elem? (set fds k (some e)) k) ≡ some e
join-set [] k d e h = cc
join-set (x ∷ fds) zero d e h = refl
join-set (x ∷ fds) (suc k) d e h = join-set fds k d e h

-- The table after open holds the new file at the number returned.
pub join-alloc :
    (fds : List (Option Ofd)) (d : Ofd) → join (get_elem? (alloc fds d) (lowest fds)) ≡ some d
join-alloc [] d = refl
join-alloc (none ∷ fds) d = refl
join-alloc (some e ∷ fds) d = join-alloc fds d

-- A descriptor closed at once is the lowest free one again.
pub lowest-close :
    (fds : List (Option Ofd)) (d : Ofd) → lowest (set (alloc fds d) (lowest fds) none) ≡ lowest fds
lowest-close [] d = refl
lowest-close (none ∷ fds) d = refl
lowest-close (some e ∷ fds) d = ap suc (lowest-close fds d)

-- The table after another change at the number returned by open.
pub set-alloc :
    (fds : List (Option Ofd)) (d e : Ofd) → set (alloc fds d) (lowest fds) (some e) ≡ alloc fds e
set-alloc [] d e = refl
set-alloc (none ∷ fds) d e = refl
set-alloc (some x ∷ fds) d e = ap (λ l. some x ∷ l) (set-alloc fds d e)

-- Descriptor `k` stands for `d`, whose file holds `c`, and no fault is due.
pub record IsOpen (s : Os) (k : ℕ) (d : Ofd) (c : Bytes) : Type 0 where
  pub calm : s.faults ≡ []
  pub at : join (get_elem? s.fds k) ≡ some d
  pub file : s.files d.name ≡ some c

-- The state after a write.
abbrev pub wrote : Os → ℕ → Ofd → Bytes → Bytes → Os
wrote s k d c bs = record s {
  faults = [];
  files = update s.files d.name (write_at c (write_pos d c) bs);
  fds = set s.fds k (some (record d { offset = write_pos d c + length bs }));
}

-- The state after a move of the offset to `p`.
abbrev pub moved : Os → ℕ → Ofd → ℕ → Os
moved s k d p = record s { faults = []; fds = set s.fds k (some (record d { offset = p })) }

module _ {s : Os} {k : ℕ} {d : Ofd} {c : Bytes} (o : IsOpen s k d c) where
  pub write_lem :
      (bs : Bytes)
      → d.writes ≡ true
      → write (pos k) bs s ≡ (done (pos (length bs)), wrote s k d c bs)
  unfolding write
  write_lem bs w = rw (o.calm, o.at, o.file, w) refl

  pub wrote-IsOpen :
      (bs : Bytes)
      → IsOpen
          (wrote s k d c bs)
          k
          (record d { offset = write_pos d c + length bs })
          (write_at c (write_pos d c) bs)
  wrote-IsOpen bs = record {
    calm = refl;
    at = join-set s.fds k d (record d { offset = write_pos d c + length bs }) o.at;
    file = update_self s.files d.name (write_at c (write_pos d c) bs);
  }

  pub moved-IsOpen : (p : ℕ) → IsOpen (moved s k d p) k (record d { offset = p }) c
  moved-IsOpen p = record {
    calm = refl;
    at = join-set s.fds k d (record d { offset = p }) o.at;
    file = o.file;
  }

  pub lseek_lem :
      (n : ℕ) (w : Whence)
      → lseek (pos k) (pos n) w s ≡ (done (pos (base w c + n)), moved s k d (base w c + n))
  unfolding lseek
  lseek_lem n w = rw (o.calm, o.at, o.file) refl

  pub lseek_start_lem : (n : ℕ) → lseek (pos k) (pos n) from_start s ≡ (done (pos n), moved s k d n)
  lseek_start_lem n = lseek_lem n from_start ∙ ap (λ p. (done (pos p), moved s k d p)) (omega arith)

  pub lseek_end_lem :
      lseek (pos k) (pos 0) from_end s ≡ (done (pos (length c)), moved s k d (length c))
  lseek_end_lem = lseek_lem 0 from_end ∙ ap (λ p. (done (pos p), moved s k d p)) (omega arith)

  pub read_lem :
      (n : ℕ)
      → d.reads ≡ true
      → let bs = take n (drop d.offset c) in
        read (pos k) n s ≡ (
          done (record { count = pos (length bs); bytes = bs }),
          moved s k d (d.offset + length bs),
        )
  unfolding read
  read_lem n r = rw (o.calm, o.at, o.file, r) refl

-- The state after an open of an existing file.
abbrev pub opened_at : Os → Bytes → Bytes → Ofd → Os
opened_at s name c d = record s { faults = []; files = update s.files name c; fds = alloc s.fds d }

-- The open file that `open` makes.
abbrev pub fresh : Bytes → Flags → Ofd
fresh name g = record {
  name = name;
  offset = 0;
  reads = g.reads;
  writes = g.writes;
  appends = g.appends;
}

abbrev pub start_contents : Flags → Bytes → Bytes
start_contents g c = if g.truncates then [] else c

pub open_lem :
    (s : Os) (name : Bytes) (g : Flags) {c : Bytes}
    → s.faults ≡ []
    → s.files name ≡ some c
    → open_file (some name) g s
      ≡ (done (pos (lowest s.fds)), opened_at s name (start_contents g c) (fresh name g))
unfolding open_file
open_lem s name g calm file = rw (calm, file) refl

-- The same with O_CREAT, for a file that is there or not.
pub create_lem :
    (s : Os) (name : Bytes) (g : Flags)
    → s.faults ≡ []
    → g.creates ≡ true
    → open_file (some name) g s ≡ (
      done (pos (lowest s.fds)),
      opened_at s name (start_contents g (contents (s.files name))) (fresh name g),
    )
unfolding open_file
create_lem s name g calm cr = elim (Option-cases (s.files name)) [
  | inl missing ↦ rw (calm, missing, cr) refl
  | inr (c, there) ↦ rw (calm, there) refl
]

pub opened-IsOpen :
    (s : Os) (name c : Bytes) (d : Ofd)
    → d.name ≡ name
    → IsOpen (opened_at s name c d) (lowest s.fds) d c
opened-IsOpen s name c d e = record {
  calm = refl;
  at = join-alloc s.fds d;
  file = rw (e, bytes_eqb_refl name) refl;
}

pub close_lem :
    {s : Os} {k : ℕ} {d : Ofd} {c : Bytes}
    → IsOpen s k d c
    → close (pos k) s ≡ (done (pos 0), record s { faults = []; fds = set s.fds k none })
unfolding close
close_lem o = rw (o.calm, o.at) refl
