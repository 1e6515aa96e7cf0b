-- ===== src/Hole/Results.antt =====
-- The two files that hole_in_file.c leaves.
use aup_assignments.Prelude.{
  ℕ, ◌<◌, ◌≡◌, refl, sym, ap, ◌∙◌, false, none, some, [], ◌∷◌, length, set,
}
use aup_assignments.Unix.Bytes.{Bytes, bytes_eqb, bytes_eqb_comm, write_at}
use aup_assignments.Unix.Proc.{done}
use aup_assignments.Unix.Files.{Os, lowest, contents}
use aup_assignments.Unix.Lemmas.{
  wrote, moved, fresh, opened_at, create_lem, opened-IsOpen, write_lem, wrote-IsOpen,
  lseek_start_lem, moved-IsOpen, close_lem,
}
use aup_assignments.Unix.Frame.{IsOpen-opened, IsOpen-closed, lowest-ne}
use aup_assignments.Hole.{main, hashes, source_flags, target_flags}
use aup_assignments.Hole.Loop.{kept, Pair, copy_lem}

-- `c` with ten '#' at 10 and ten at 30.
abbrev pub holed : Bytes → Bytes
holed c = write_at (write_at c 10 hashes) 30 hashes

-- The state when the second file is opened.
prepared : Os → Bytes → Os
prepared s source =
    let c = contents (s.files source) in
    let k = lowest s.fds in
    let d = fresh source source_flags in
    let s1 = moved (opened_at s source c d) k d 10 in
    let d1 = record d { offset = 10 } in
    let s2 = wrote s1 k d1 c hashes in
    let d2 = record d { offset = 20 } in
    let s3 = moved s2 k d2 30 in
    let d3 = record d { offset = 30 } in
    let s4 = wrote s3 k d3 (write_at c 10 hashes) hashes in moved s4 k (record d { offset = 40 }) 0

-- With no fault due, two different names and more fuel than the first file then has bytes, the
-- program ends with 0. The first file, present before or not, holds its old bytes with ten '#' at 10
-- and at 30 and zeros in the gaps; the second one holds, from its start on, the bytes of the first
-- other than 0 up to the first byte 255. Other files are unchanged.
pub hole_result :
    (fuel : ℕ) (s : Os) (prog source target : Bytes)
    → s.faults ≡ []
    → bytes_eqb source target ≡ false
    → length (holed (contents (s.files source))) < fuel
    → (t : Os) × (main fuel (prog ∷ source ∷ target ∷ []) s ≡ (done (some 0), t))
      × (t.files source ≡ some (holed (contents (s.files source))))
      × (t.files target
          ≡ some
              (write_at (contents (s.files target)) 0 (kept (holed (contents (s.files source))))))
      × ((name : Bytes)
          → bytes_eqb name source ≡ false
          → bytes_eqb name target ≡ false
          → t.files name ≡ s.files name)
unfolding main prepared
hole_result fuel s prog source target calm differ enough =
    let c = contents (s.files source) in
    let k = lowest s.fds in
    let d = fresh source source_flags in
    let o0 = opened-IsOpen s source c d refl in
    let o1 = moved-IsOpen o0 10 in
    let o2 = wrote-IsOpen o1 hashes in
    let o3 = moved-IsOpen o2 30 in
    let o4 = wrote-IsOpen o3 hashes in
    let o5 = moved-IsOpen o4 0 in
    let s5 = prepared s source in
    let e = fresh target target_flags in
    let x = contents (s5.files target) in
    let j = lowest s5.fds in
    let away : bytes_eqb target source ≡ false = bytes_eqb_comm target source ∙ differ in
    let same : s5.files target ≡ s.files target = rw away refl in
    let pair : Pair (opened_at s5 target x e) k j d e (holed c) x = record {
      source = IsOpen-opened o5 target x e differ;
      target = opened-IsOpen s5 target x e refl;
      apart = λ q. lowest-ne s5.fds k o5.at (sym q);
      names = differ;
      reads = refl;
      writes = refl;
      plain = refl;
    } in
    let (t, run, l) = copy_lem fuel (holed c) pair refl enough in
    let after = IsOpen-closed l.pair.target k l.pair.apart in
    let t1 : Os = record t { faults = []; fds = set t.fds k none } in
    (
      record t1 { faults = []; fds = set t1.fds j none },
      rw
          (
            create_lem s source source_flags calm refl,
            lseek_start_lem o0 10,
            write_lem o1 hashes refl,
            lseek_start_lem o2 30,
            write_lem o3 hashes refl,
            lseek_start_lem o4 0,
            create_lem s5 target target_flags refl refl,
            run,
            close_lem l.pair.source,
            close_lem after,
          )
          refl,
      l.pair.source.file,
      l.pair.target.file ∙ ap (λ o. some (write_at (contents o) 0 (kept (holed c)))) same,
      λ name ns nt. l.others name nt ∙ rw (nt, ns) refl,
    )
