-- ===== src/Hole/Loop.antt =====
-- The copying loop of hole_in_file.c with no fault due.
use mathlib.Core.Path.{subst}
use aup_assignments.Prelude.{
  ℕ, zero, suc, ◌+◌, ◌<◌, ◌≡◌, refl, sym, ◌∙◌, ◌≢◌, true, false, [], ◌∷◌, ◌++◌, arith, ◌==◌, inl,
  inr, Bool-cases, if◌then◌else◌, length, drop,
}
use aup_assignments.Prelude.Int.{pos}
use aup_assignments.Unix.Bytes.{Bytes, bytes_eqb, write_at, write_at-nil, write_at-write_at}
use aup_assignments.Unix.Proc.{done}
use aup_assignments.Unix.Files.{Ofd, Os, write_pos}
use aup_assignments.Unix.Lemmas.{IsOpen, wrote, moved, write_lem, wrote-IsOpen, moved-IsOpen}
use aup_assignments.Unix.Frame.{IsOpen-wrote, IsOpen-moved, read_one, drop-next}
use aup_assignments.Hole.{copy, eof_byte}

-- What is kept of a sequence of bytes: up to the first byte 255, the bytes other than 0.
abbrev pub kept : Bytes → Bytes
kept [] = []
kept (b ∷ bs) = if b == eof_byte then [] else if b == 0 then kept bs else b ∷ kept bs

-- Two descriptors open on two files, one for reading and one for plain writing.
pub record Pair (s : Os) (i j : ℕ) (d e : Ofd) (c x : Bytes) : Type 0 where
  pub source : IsOpen s i d c
  pub target : IsOpen s j e x
  pub apart : i ≢ j
  pub names : bytes_eqb d.name e.name ≡ false
  pub reads : d.reads ≡ true
  pub writes : e.writes ≡ true
  pub plain : e.appends ≡ false

-- From `s` to `t` the target came to hold `x`, and nothing else changed but the offsets.
pub record Copied (s t : Os) (i j : ℕ) (d e : Ofd) (c x : Bytes) : Type 0 where
  pub read_to : ℕ
  pub written_to : ℕ
  pub pair : Pair t i j (record d { offset = read_to }) (record e { offset = written_to }) c x
  pub others : (name : Bytes) → bytes_eqb name e.name ≡ false → t.files name ≡ s.files name

module _ {s : Os} {i j : ℕ} {d e : Ofd} {c x : Bytes} (v : Pair s i j d e c x) where
  -- After a read.
  read-Pair : (p : ℕ) → Pair (moved s i d p) i j (record d { offset = p }) e c x
  read-Pair p = record {
    source = moved-IsOpen v.source p;
    target = IsOpen-moved v.target i d p v.apart;
    apart = v.apart;
    names = v.names;
    reads = v.reads;
    writes = v.writes;
    plain = v.plain;
  }

  -- After a write.
  write-Pair :
      (bs : Bytes)
      → Pair
          (wrote s j e x bs)
          i
          j
          d
          (record e { offset = write_pos e x + length bs })
          c
          (write_at x (write_pos e x) bs)
  write-Pair bs = record {
    source = IsOpen-wrote v.source j e x bs (λ q. v.apart (sym q)) v.names;
    target = wrote-IsOpen v.target bs;
    apart = v.apart;
    names = v.names;
    reads = v.reads;
    writes = v.writes;
    plain = v.plain;
  }

  after-read :
      {p : ℕ} {t : Os} {y : Bytes}
      → Copied (moved s i d p) t i j (record d { offset = p }) e c y
      → Copied s t i j d e c y
  after-read l = record {
    read_to = l.read_to;
    written_to = l.written_to;
    pair = l.pair;
    others = l.others;
  }

  after-write :
      {p : ℕ} {t : Os} (bs more : Bytes)
      → let q = write_pos e x in
        Copied
          (wrote (moved s i d p) j e x bs)
          t
          i
          j
          (record d { offset = p })
          (record e { offset = q + length bs })
          c
          (write_at (write_at x q bs) (q + length bs) more)
        → Copied s t i j d e c (write_at x e.offset (bs ++ more))
  after-write {t} bs more l = record {
    read_to = l.read_to;
    written_to = l.written_to;
    pair =
        subst
          (λ y.
            Pair t i j (record d { offset = l.read_to }) (record e { offset = l.written_to }) c y)
          joined l.pair;
    others = λ name o. l.others name o ∙ rw o refl;
  }
    where
      joined :
          write_at (write_at x (write_pos e x) bs) (write_pos e x + length bs) more
          ≡ write_at x e.offset (bs ++ more)
      joined = write_at-write_at x (write_pos e x) bs more ∙ rw v.plain refl

-- With more fuel than bytes left, the loop ends by its test, and the target holds what is kept of
-- the rest of the source, written from its offset on.
pub copy_lem :
    (fuel : ℕ) (rest : Bytes) {s : Os} {i j : ℕ} {d e : Ofd} {c x : Bytes}
    → Pair s i j d e c x
    → drop d.offset c ≡ rest
    → length rest < fuel
    → (t : Os) × (copy fuel (pos i) (pos j) s ≡ (done true, t))
      × Copied s t i j d e c (write_at x e.offset (kept rest))
unfolding copy
copy_lem zero rest v h lt = absurd (omega arith)
copy_lem (suc fuel) [] {s} {i} {j} {d} {e} {c} {x} v h lt = (
  moved s i d (d.offset + 0),
  rw (read_one v.source [] v.reads h) refl,
  record {
    read_to = d.offset + 0;
    written_to = e.offset;
    pair = rw (write_at-nil x e.offset) (read-Pair v (d.offset + 0));
    others = λ name o. refl;
  },
)
copy_lem (suc fuel) (b ∷ bs) {s} {i} {j} {d} {e} {c} {x} v h lt =
    let v1 = read-Pair v (d.offset + 1) in
    let next = drop-next d.offset c h in
    rw (read_one v.source (b ∷ bs) v.reads h) (elim (Bool-cases (b == eof_byte)) [
      | inl eof ↦ (
        moved s i d (d.offset + 1),
        rw eof refl,
        rw eof (record {
          read_to = d.offset + 1;
          written_to = e.offset;
          pair = rw (write_at-nil x e.offset) v1;
          others = λ name o. refl;
        }),
      )
      | inr other ↦ elim (Bool-cases (b == 0)) [
        | inl null ↦
            let (t, run, l) = copy_lem fuel bs v1 next (omega arith) in
            (t, rw other (rw null run), rw (other, null) (after-read v l))
        | inr byte ↦
            let v2 = write-Pair v1 (b ∷ []) in
            let (t, run, l) = copy_lem fuel bs v2 next (omega arith) in
            (
              t,
              rw other (rw byte (rw (write_lem v1.target (b ∷ []) v1.writes) run)),
              rw (other, byte) (after-write v (b ∷ []) (kept bs) l),
            )
      ]
    ])
