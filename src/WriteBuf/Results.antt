-- ===== src/WriteBuf/Results.antt =====
-- What writebuf.c prints.
use aup_assignments.Prelude.{
  ℕ, zero, suc, ◌+◌, arith, true, set, ◌∙◌, ◌≡◌, refl, some, [], ◌∷◌, ◌++◌, take, drop, length,
}
use aup_assignments.Prelude.Int.{pos}
use aup_assignments.Unix.Bytes.{Bytes}
use aup_assignments.Unix.Proc.{done}
use aup_assignments.Unix.Files.{Os, Ofd}
use aup_assignments.Unix.Lemmas.{IsOpen, fresh, open_lem, opened-IsOpen, moved-IsOpen}
use aup_assignments.Unix.Frame.{read_one, drop-next}
use aup_assignments.WriteBuf.{read_from_file, read_only, string, hashes, fill, main}

-- The bytes `bs` from the position `i` on.
abbrev stored : Bytes → ℕ → Bytes → Bytes
stored buf i [] = buf
stored buf i (b ∷ bs) = stored (set buf i b) (suc i) bs

take-nil : (n : ℕ) → ◌≡◌ {A = Bytes} (take n []) []
take-nil zero = refl
take-nil (suc n) = refl

fill_lem :
    (n i : ℕ) (buf rest : Bytes) {s : Os} {k : ℕ} {d : Ofd} {c : Bytes}
    → IsOpen s k d c
    → d.reads ≡ true
    → drop d.offset c ≡ rest
    → (t : Os) × (fill n i (pos k) buf s ≡ (done (stored buf i (take n rest)), t))
unfolding fill
fill_lem zero i buf rest o r h = (_, refl)
fill_lem (suc n) i buf [] {d = d} {c = c} o r h =
    let e : d.offset + 0 ≡ d.offset = omega arith in
    let (t, f) = fill_lem n (suc i) buf [] (moved-IsOpen o (d.offset + 0)) r (rw e h) in
    (t, rw (read_one o [] r h) (f ∙ rw (take-nil n) refl))
fill_lem (suc n) i buf (b ∷ bs) {d = d} {c = c} o r h =
    let (t, f) =
      fill_lem n (suc i) (set buf i b) bs (moved-IsOpen o (d.offset + 1)) r
        (drop-next d.offset c h) in
    (t, rw (read_one o (b ∷ bs) r h) f)

-- The array after the loop.
whole :
    (c : Bytes)
    → stored hashes 1 (take 3 c)
      ≡ b'#' ∷ take 3 c ++ drop (length (take 3 c)) (b'#' ∷ b'#' ∷ b'#' ∷ 0 ∷ [])
whole [] = refl
whole (x ∷ []) = refl
whole (x ∷ y ∷ []) = refl
whole (x ∷ y ∷ z ∷ c) = refl

-- With no fault due, the second line has the first three bytes of the file behind the first
-- character, as many as there are, up to a byte 0.
bytes_read :
    (s : Os) (c : Bytes)
    → s.faults ≡ []
    → s.files read_from_file ≡ some c
    → let bytes = take 3 c in
      let buf = b'#' ∷ bytes ++ drop (length bytes) (b'#' ∷ b'#' ∷ b'#' ∷ 0 ∷ []) in
      (t : Os) × (main s ≡ (done (string hashes ∷ string buf ∷ []), t))
unfolding main
bytes_read s c calm file =
    let d = fresh read_from_file read_only in
    let o = opened-IsOpen s read_from_file c d refl in
    let (t, e) = fill_lem 3 1 hashes c o refl refl in
    (t, rw (open_lem s read_from_file read_only calm file, e, whole c) refl)
