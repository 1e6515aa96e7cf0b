-- ===== src/Truncate/Results.antt =====
-- What `mytruncate` and its program do to a file, without faults and with any faults.
use aup_assignments.Prelude.{
  ℕ, zero, suc, ◌+◌, ◌-◌, ◌^◌, ◌≤◌, ◌<◌, ◌≡◌, refl, ◌≢◌, true, false, none, some, [], ◌∷◌, ◌++◌,
  arith, ltb, ◌==◌, inl, inr, Bool-cases, if◌then◌else◌, length, set, sym, ◌∙◌, take, replicate,
  length-append, length-take, length-replicate,
}
use aup_assignments.Prelude.Int.{ℤ, pos, eqb_ℤ}
use aup_assignments.Unix.Bytes.{Bytes, bytes_eqb, bytes_eqb→eq}
use aup_assignments.Unix.Atoi.{atoi}
use aup_assignments.Unix.Proc.{done}
use aup_assignments.Unix.Files.{Os, lowest}
use aup_assignments.Unix.Lemmas.{fresh, open_lem, opened-IsOpen, close_lem}
use aup_assignments.Unix.Grows.{
  size, Grows, Grows-pure, Grows-bind, Grows-if, Grows-write, grows_rules,
}
use aup_assignments.Truncate.{write_zeros, mytruncate, main, read_write}
use aup_assignments.Truncate.Laws.{result, mytruncate_lem}

Grows-write_zeros : (n : ℕ) (fd : ℤ) → Grows (write_zeros n fd)
unfolding write_zeros
Grows-write_zeros zero fd = Grows-pure true
Grows-write_zeros (suc n) fd =
    Grows-bind _ _ (Grows-write fd (0 ∷ []))
      (λ r. Grows-if (eqb_ℤ r (pos 1)) _ _ (Grows-write_zeros n fd) (Grows-pure false))

Grows-mytruncate : (fd offset : ℤ) → Grows (mytruncate fd offset)
unfolding mytruncate
Grows-mytruncate fd offset = search (grows_rules, Grows-write_zeros) depth 12

-- Whatever calls fail or fall short, `mytruncate` never makes a file shorter, at any offset.
never_shortens :
    (fd offset : ℤ) (s : Os) (name : Bytes) → size s name ≤ size (mytruncate fd offset s).1 name
never_shortens fd offset = (Grows-mytruncate fd offset).at

length-result :
    (c : Bytes) (n : ℕ)
    → length c ≢ n
    → length (result c n) ≡ (if ltb (length c) n then n + 1 else length c + 1)
length-result c n h = ground (
  arith,
  length-append c (replicate (n - length c + 1) 0),
  length-append (take n c) (replicate (length c - n + 1) 0),
  length-take n c,
  length-replicate {A = ℕ} (n - length c + 1) 0,
  length-replicate {A = ℕ} (length c - n + 1) 0,
)

-- With no fault due, an existing file of at most 2 ^ 31 - 2 bytes `c`, and an offset `n` below 2 ^ 31
-- and other than its size, the program reports success, and no int of it overflows. A file shorter than `n` becomes one byte longer than `n`, by
-- zeros at its end; a longer one keeps its first `n` bytes, the rest is zeroed, and it grows by one
-- byte: in no case is it `n` bytes long. Other files are unchanged.
pub truncate_misses :
    (s : Os) (prog file arg c : Bytes) (n : ℕ)
    → s.faults ≡ []
    → s.files file ≡ some c
    → atoi arg ≡ pos n
    → n < 2 ^ 31
    → length c + 1 < 2 ^ 31
    → length c ≢ n
    → (t : Os) × (main (prog ∷ file ∷ arg ∷ []) s ≡ (done (some 0), t))
      × (t.files file
          ≡ some (
              if ltb (length c) n
              then c ++ replicate (n - length c + 1) 0
              else take n c ++ replicate (length c - n + 1) 0))
      × (size t file ≡ (if ltb (length c) n then n + 1 else length c + 1))
      × ((name : Bytes) → bytes_eqb name file ≡ false → t.files name ≡ s.files name)
unfolding main
truncate_misses s prog file arg c n calm file_c arg_n small_n small_c differ =
    let o = opened-IsOpen s file c (fresh file read_write) refl in
    let (t, run, l) = mytruncate_lem n o refl refl small_n small_c in
    let e : (length c == n) ≡ false = ground arith in
    let left : t.files file ≡ some (result c n) = l.now.file in
    (
      record t { faults = []; fds = set t.fds (lowest s.fds) none },
      rw (open_lem s file read_write calm file_c, arg_n) (rw run (rw (close_lem l.now) refl)),
      rw e at left,
      rw left (length-result c n differ),
      λ name other. l.others name other ∙ rw other refl,
    )

-- At an offset equal to the size of the file the program reports success and changes no file.
truncate_same_size :
    (s : Os) (prog file arg c : Bytes)
    → s.faults ≡ []
    → s.files file ≡ some c
    → atoi arg ≡ pos (length c)
    → length c + 1 < 2 ^ 31
    → (t : Os) × (main (prog ∷ file ∷ arg ∷ []) s ≡ (done (some 0), t))
      × ((name : Bytes) → t.files name ≡ s.files name)
unfolding main
truncate_same_size s prog file arg c calm file_c arg_n small =
    let o = opened-IsOpen s file c (fresh file read_write) refl in
    let (t, run, l) = mytruncate_lem (length c) o refl refl (omega arith) small in
    let e : (length c == length c) ≡ true = ground arith in
    let left : t.files file ≡ some (result c (length c)) = l.now.file in
    (
      record t { faults = []; fds = set t.fds (lowest s.fds) none },
      rw (open_lem s file read_write calm file_c, arg_n) (rw run (rw (close_lem l.now) refl)),
      λ name. elim (Bool-cases (bytes_eqb name file)) [
        | inl same ↦ rw (bytes_eqb→eq name file same) (rw e at left ∙ sym file_c)
        | inr other ↦ l.others name other ∙ rw other refl
      ],
    )
