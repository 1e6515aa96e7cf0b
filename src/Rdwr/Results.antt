-- ===== src/Rdwr/Results.antt =====
-- The file that rdwr.c leaves.
use mathlib.Core.Path.{subst}
use aup_assignments.Prelude.{
  ℕ, zero, suc, ◌+◌, ◌≤◌, ◌<◌, ◌≡◌, refl, sym, ap, ◌∙◌, true, false, none, some, [], ◌∷◌, ◌++◌,
  arith, inl, inr, Bool-cases, length, take, drop, set, length-take, length-drop, All, ltb,
}
use aup_assignments.Prelude.Int.{pos}
use aup_assignments.Unix.Bytes.{Bytes, bytes_eqb, bytes_eqb→eq, write_at, write_at-append}
use aup_assignments.Unix.Proc.{done, exited}
use aup_assignments.Unix.Files.{Ofd, Os, lowest}
use aup_assignments.Unix.Lemmas.{
  IsOpen, wrote, moved, fresh, opened_at, open_lem, opened-IsOpen, read_lem, write_lem,
  wrote-IsOpen, moved-IsOpen, close_lem, update_self,
}
use aup_assignments.Unix.Frame.{read_one, drop-next}
use aup_assignments.Rdwr.{main, skip, hello, read_write, is_eof}

-- The loop takes the offset to the end if no byte passes for EOF.
skip_lem :
    (fuel high : ℕ) (rest : Bytes) {s : Os} {k : ℕ} {d : Ofd} {c : Bytes}
    → IsOpen s k d c
    → d.reads ≡ true
    → drop d.offset c ≡ rest
    → All (λ b. is_eof high b ≡ false) rest
    → length rest < fuel
    → (t : Os) × (skip fuel high (pos k) s ≡ (done true, t))
      × IsOpen t k (record d { offset = d.offset + length rest }) c
      × ((name : Bytes) → t.files name ≡ s.files name)
unfolding skip
skip_lem zero high rest o r e h lt = absurd (omega arith)
skip_lem (suc fuel) high [] {s} {k} {d} {c} o r e h lt = (
  moved s k d (d.offset + 0),
  rw (read_one o [] r e) refl,
  moved-IsOpen o (d.offset + 0),
  λ name. refl,
)
skip_lem (suc fuel) high (b ∷ bs) {s} {k} {d} {c} o r e h lt =
    let o1 = moved-IsOpen o (d.offset + 1) in
    let (t, run, o2, same) =
      skip_lem fuel high bs o1 r (drop-next d.offset c e) h.1 (omega arith) in
    let sum : d.offset + 1 + length bs ≡ d.offset + suc (length bs) = omega arith in
    (
      t,
      rw (read_one o (b ∷ bs) r e, h.0) run,
      subst (λ p. IsOpen t k (record d { offset = p }) c) sum o2,
      same,
    )

-- With no fault due, a file of at least ten bytes, none after the tenth equal to EOF as the loop
-- sees it, and fuel above its size, the program ends with 0 and appends "hello" to the file. Other
-- files are unchanged.
pub appends_hello :
    (fuel high : ℕ) (s : Os) (prog file c : Bytes)
    → s.faults ≡ []
    → s.files file ≡ some c
    → 10 ≤ length c
    → All (λ b. is_eof high b ≡ false) (drop 10 c)
    → length c < fuel
    → (t : Os) × (main fuel high (prog ∷ file ∷ []) s ≡ (done (some 0), t))
      × (t.files file ≡ some (c ++ hello))
      × ((name : Bytes) → bytes_eqb name file ≡ false → t.files name ≡ s.files name)
unfolding main
appends_hello fuel high s prog file c calm there ten plain enough =
    let k = lowest s.fds in
    let d = fresh file read_write in
    let o = opened-IsOpen s file c d refl in
    let got : length (take 10 c) ≡ 10 = omega (arith, length-take 10 c) in
    let o1 = moved-IsOpen o 10 in
    let (t, run, o2, same) =
      skip_lem fuel high (drop 10 c) o1 refl refl plain (omega (arith, length-drop 10 c)) in
    let end : 10 + length (drop 10 c) ≡ length c = omega (arith, ten, length-drop 10 c) in
    let o3 = subst (λ p. IsOpen t k (record d { offset = p }) c) end o2 in
    let w = wrote t k (record d { offset = length c }) c hello in
    (
      record w { faults = []; fds = set w.fds k none },
      rw (open_lem s file read_write calm there, read_lem o 10 refl, got)
          (rw run (rw (write_lem o3 hello refl, close_lem (wrote-IsOpen o3 hello)) refl)),
      update_self t.files file (write_at c (length c) hello) ∙ ap some (write_at-append c hello),
      λ name other. rw other (same name ∙ rw other refl),
    )

-- With no fault due, the program ends with status 0 at a file of fewer than ten bytes, and changes
-- no file.
refuses_short :
    (fuel high : ℕ) (s : Os) (prog file c : Bytes)
    → s.faults ≡ []
    → s.files file ≡ some c
    → length c < 10
    → (t : Os) × (main fuel high (prog ∷ file ∷ []) s ≡ (exited 0, t))
      × ((name : Bytes) → t.files name ≡ s.files name)
unfolding main
refuses_short fuel high s prog file c calm there few =
    let k = lowest s.fds in
    let d = fresh file read_write in
    let o = opened-IsOpen s file c d refl in
    let got : length (take 10 c) ≡ length c = omega (arith, length-take 10 c) in
    let low : ltb (length (take 10 c)) 10 ≡ true = ground arith in
    (
      moved (opened_at s file c d) k d (0 + length (take 10 c)),
      rw (open_lem s file read_write calm there, read_lem o 10 refl) (rw low refl),
      λ name. elim (Bool-cases (bytes_eqb name file)) [
        | inl here ↦ rw (bytes_eqb→eq name file here) (update_self s.files file c ∙ sym there)
        | inr other ↦ rw other refl
      ],
    )
