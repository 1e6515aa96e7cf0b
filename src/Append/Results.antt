-- ===== src/Append/Results.antt =====
-- The file that append.c leaves.
use aup_assignments.Prelude.{◌≡◌, refl, ap, ◌∙◌, false, none, some, [], ◌∷◌, ◌++◌, drop, set}
use aup_assignments.Unix.Bytes.{
  Bytes, bytes_eqb, bytes_eqb_refl, write_at, write_at-start, write_at-append,
}
use aup_assignments.Prelude.Int.{ℤ, pos}
use aup_assignments.Unix.Proc.{done, exited}
use aup_assignments.Unix.Files.{Os, ebadf, desc, lseek, alloc, lowest, contents, update}
use aup_assignments.Unix.Lemmas.{
  IsOpen, wrote, moved, fresh, opened_at, open_lem, create_lem, opened-IsOpen, write_lem,
  wrote-IsOpen, lseek_start_lem, moved-IsOpen, close_lem, lowest-close, set-alloc, update_self,
}
use aup_assignments.Append.{opens, appends, main, letters, numbers, create_flags, append_flags}

lseek_closed :
    (fd fd_new : ℤ) (u : Os)
    → u.faults ≡ []
    → desc u.fds fd ≡ none
    → (appends fd fd_new u).0 ≡ exited ebadf
unfolding lseek
lseek_closed fd fd_new u calm closed = rw (calm, closed) refl

-- With no fault due, the program exits with 0 for every file, present or not. The descriptor that it
-- closed is the one that the second open returns, and only so does the lseek on the closed descriptor
-- succeed: on one that is not open the program would end with EBADF. The file holds "abcde", the old
-- bytes from the sixth on, and "12345". Other files are unchanged.
pub append_result :
    (s : Os) (prog file : Bytes)
    → s.faults ≡ []
    → ((fd : ℤ) × (u : Os) × (opens (prog ∷ file ∷ []) s ≡ (done (fd, fd), u)))
      × ((fd fd_new : ℤ) (u : Os)
          → u.faults ≡ []
          → desc u.fds fd ≡ none
          → (appends fd fd_new u).0 ≡ exited ebadf)
      × (t : Os) × (main (prog ∷ file ∷ []) s ≡ (done 0, t))
      × (t.files file ≡ some ((letters ++ drop 5 (contents (s.files file))) ++ numbers))
      × ((name : Bytes) → bytes_eqb name file ≡ false → t.files name ≡ s.files name)
unfolding main
append_result s prog file calm =
    let c = contents (s.files file) in
    let d = fresh file create_flags in
    let o = opened-IsOpen s file c d refl in
    let k = lowest s.fds in
    let mid = write_at c 0 letters in
    let e = record d { offset = 5 } in
    let s2 : Os = record s {
      faults = [];
      files = update (update s.files file c) file mid;
      fds = set (set (alloc s.fds d) k (some e)) k none;
    } in
    let again : lowest s2.fds ≡ k = rw (set-alloc s.fds d e) (lowest-close s.fds e) in
    let d2 = fresh file append_flags in
    let o2 : IsOpen (opened_at s2 file mid d2) k d2 mid =
      rw again at (opened-IsOpen s2 file mid d2 refl) in
    let o3 = moved-IsOpen o2 0 in
    let w =
      wrote (moved (opened_at s2 file mid d2) k d2 0) k (record d2 { offset = 0 }) mid numbers in
    let kept : mid ≡ letters ++ drop 5 c = write_at-start c letters in
    (
      (
        pos k,
        opened_at s2 file mid d2,
        rw
            (
              create_lem s file create_flags calm refl,
              write_lem o letters refl,
              close_lem (wrote-IsOpen o letters),
              open_lem s2 file append_flags refl (update_self (update s.files file c) file mid),
              again,
            )
            refl,
      ),
      lseek_closed,
      record w { faults = []; fds = set w.fds k none },
      rw
          (
            create_lem s file create_flags calm refl,
            write_lem o letters refl,
            close_lem (wrote-IsOpen o letters),
            open_lem s2 file append_flags refl (update_self (update s.files file c) file mid),
            again,
            lseek_start_lem o2 0,
            write_lem o3 numbers refl,
            close_lem (wrote-IsOpen o3 numbers),
          )
          refl,
      rw (bytes_eqb_refl file)
          (ap some (write_at-append mid numbers ∙ ap (λ l. l ++ numbers) kept)),
      λ name other. rw other refl,
    )
