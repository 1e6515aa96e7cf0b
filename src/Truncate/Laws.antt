-- ===== src/Truncate/Laws.antt =====
-- `mytruncate` with no fault due: its loops, and the file that each branch leaves.
use native.Mathlib.Numerals.{add-one}
use mathlib.Core.Path.{subst}
use aup_assignments.Prelude.{
  ℕ, zero, suc, ◌+◌, ◌-◌, ◌%◌, ◌^◌, ◌≤◌, ◌<◌, ◌≡◌, refl, ◌∙◌, true, false, some, [], ◌∷◌, ◌++◌,
  arith, ltb, leb, ◌==◌, inl, inr, Bool-cases, if◌then◌else◌, length, take, replicate, append_assoc,
  length-replicate,
}
use aup_assignments.Prelude.Int.{pos}
use aup_assignments.Unix.Bytes.{
  Bytes, bytes_eqb, write_at, write_at-nil, write_at-end, write_at-tail, write_at-write_at,
}
use aup_assignments.Unix.Proc.{done}
use aup_assignments.Unix.Files.{Ofd, Os, from_end, write_pos}
use aup_assignments.Unix.Lemmas.{
  IsOpen, moved, write_lem, wrote-IsOpen, lseek_lem, lseek_start_lem, lseek_end_lem, moved-IsOpen,
}
use aup_assignments.Truncate.{to_int, write_zeros, grow, blank, mytruncate}

-- The state `t` is `s` but for the file of `d`, which holds `c`; `d` is still open at `k`.
pub record Leaves (s t : Os) (k : ℕ) (d : Ofd) (c : Bytes) : Type 0 where
  pub offset : ℕ
  pub now : IsOpen t k (record d { offset = offset }) c
  pub others : (name : Bytes) → bytes_eqb name d.name ≡ false → t.files name ≡ s.files name

write_pos-offset : (d : Ofd) (c : Bytes) → d.appends ≡ false → write_pos d c ≡ d.offset
write_pos-offset d c a = rw a refl

-- The loop writes `n` zeros at the offset.
pub write_zeros_lem :
    (n : ℕ) {s : Os} {k : ℕ} {d : Ofd} {c : Bytes}
    → IsOpen s k d c
    → d.writes ≡ true
    → d.appends ≡ false
    → (t : Os) × (write_zeros n (pos k) s ≡ (done true, t))
      × Leaves s t k d (write_at c d.offset (replicate n 0))
unfolding write_zeros
write_zeros_lem zero {s} {k} {d} {c} o w a = (
  s,
  refl,
  record { offset = d.offset; now = rw (write_at-nil c d.offset) o; others = λ name e. refl },
)
write_zeros_lem (suc n) {s} {k} {d} {c} o w a =
    let (t, run, l) = write_zeros_lem n (wrote-IsOpen o (0 ∷ [])) w a in
    (
      t,
      rw (write_lem o (0 ∷ []) w) run,
      record {
        offset = l.offset;
        now = subst (λ x. IsOpen t k (record d { offset = l.offset }) x) joined l.now;
        others = λ name e. l.others name e ∙ rw e refl;
      },
    )
  where
    joined :
        write_at (write_at c (write_pos d c) (0 ∷ [])) (write_pos d c + 1) (replicate n 0)
        ≡ write_at c d.offset (replicate (suc n) 0)
    joined = rw (write_pos-offset d c a) (write_at-write_at c d.offset (0 ∷ []) (replicate n 0))

to_int_small : (n : ℕ) → n < 2 ^ 31 → to_int (pos n) ≡ pos n
to_int_small n h =
    let e : n % 2 ^ 32 ≡ n = omega arith in
    let f : ltb n (2 ^ 31) ≡ true = ground arith in rw (e, f) refl

-- What `mytruncate` makes of the contents `c` at the offset `n`.
abbrev pub result : Bytes → ℕ → Bytes
result c n =
    if length c == n
    then c
    else if ltb (length c) n
    then c ++ replicate (n - length c + 1) 0
    else take n c ++ replicate (length c - n + 1) 0

zeros_beyond :
    (c : Bytes) (m : ℕ)
    → 0 < m
    → write_at c (length c + 1) (replicate m 0) ≡ c ++ replicate (m + 1) 0
zeros_beyond c zero h = absurd (omega arith)
zeros_beyond c (suc m) h =
    let e : suc m + 1 ≡ suc (suc m) = omega arith in
    rw e (write_at-end c 1 0 (replicate m 0) ∙ append_assoc c (0 ∷ []) (0 ∷ replicate m 0))

zeros_tail :
    (c : Bytes) (p : ℕ)
    → p ≤ length c
    → write_at c p (replicate (length c - p + 1) 0) ≡ take p c ++ replicate (length c - p + 1) 0
zeros_tail c p h =
    let m : ℕ = length c - p in
    rw add-one (write_at-tail c p 0 (replicate m 0) h (omega (arith, length-replicate {A = ℕ} m 0)))

module _ {s : Os} {k : ℕ} {d : Ofd} {c : Bytes} (o : IsOpen s k d c) (w : d.writes ≡ true)
    (a : d.appends ≡ false) where
  Leaves-moved :
      (p : ℕ) {t : Os} {x : Bytes}
      → Leaves (moved s k d p) t k (record d { offset = p }) x
      → Leaves s t k d x
  Leaves-moved p l = record { offset = l.offset; now = l.now; others = l.others }

  -- A loop of writes after a move to `p`.
  zeros_at :
      (p n : ℕ)
      → (t : Os) × (write_zeros n (pos k) (moved s k d p) ≡ (done true, t))
        × Leaves s t k d (write_at c p (replicate n 0))
  zeros_at p n =
      let (t, run, l) = write_zeros_lem n (moved-IsOpen o p) w a in (t, run, Leaves-moved p l)

  grow_lem :
      (n : ℕ)
      → length c < n
      → n < 2 ^ 31
      → (t : Os) × (grow (pos k) (pos n) (pos (length c)) s ≡ (done (some 0), t))
        × Leaves s t k d (c ++ replicate (n - length c + 1) 0)
  grow_lem n h g =
      let near : leb (2 ^ 31) (n - length c) ≡ false = ground arith in
      let (t, run, l) = zeros_at (length c + 1) (n - length c) in
      (
        t,
        rw (lseek_lem o 1 from_end) (rw (near, run) refl),
        rw (← zeros_beyond c (n - length c) (omega arith)) l,
      )

  blank_lem :
      (n : ℕ)
      → n < length c
      → n < 2 ^ 31
      → length c + 1 < 2 ^ 31
      → (t : Os) × (blank (pos k) (pos n) (pos (length c)) s ≡ (done (some 0), t))
        × Leaves s t k d (take n c ++ replicate (length c - n + 1) 0)
  blank_lem n h g m =
      let below : (length c == 2 ^ 31 - 1) ≡ false = ground arith in
      let (t, run, l) = zeros_at n (length c - n + 1) in
      (
        t,
        rw (lseek_start_lem o n, to_int_small n g) (rw run (rw below refl)),
        rw (← zeros_tail c n (omega arith)) l,
      )

-- `mytruncate` without a fault: it returns 0, as nothing overflows, and the file holds `result c n`.
pub mytruncate_lem :
    {s : Os} {k : ℕ} {d : Ofd} {c : Bytes} (n : ℕ)
    → IsOpen s k d c
    → d.writes ≡ true
    → d.appends ≡ false
    → n < 2 ^ 31
    → length c + 1 < 2 ^ 31
    → (t : Os) × (mytruncate (pos k) (pos n) s ≡ (done (some 0), t)) × Leaves s t k d (result c n)
unfolding mytruncate
mytruncate_lem {s} {k} {d} {c} n o w a h g =
    let end = length c in
    let o' = moved-IsOpen o end in
    rw (lseek_end_lem o, to_int_small end (omega arith))
      (elim (Bool-cases (end == n)) [
        | inl same ↦ (
          moved s k d end,
          rw same refl,
          rw same (record { offset = end; now = o'; others = λ name e. refl }),
        )
        | inr differ ↦ elim (Bool-cases (ltb end n)) [
          | inl below ↦
              let (t, run, l) = grow_lem o' w a n (ground arith) h in
              (t, rw (differ, below) run, rw (differ, below) (Leaves-moved o w a end l))
          | inr above ↦
              let (t, run, l) = blank_lem o' w a n (ground arith) h g in
              (t, rw (differ, above) run, rw (differ, above) (Leaves-moved o w a end l))
        ]
      ])
