-- ===== src/Game/Rounds.antt =====
-- What the rounds of game.c do to its two files.
use aup_assignments.Prelude.{
  eq_self, ne_test, ℕ, ◌+◌, ◌%◌, ◌≡◌, refl, sym, ap, append_assoc, length, ◌≢◌, Bool, true, false,
  Option, none, some, [], ◌∷◌, ◌++◌, ◌==◌,
}
use aup_assignments.Unix.Bytes.{Bytes, bytes_eqb, write_at, write_at-append}
use aup_assignments.Unix.Proc.{done}
use aup_assignments.Unix.Files.{Ofd}
use aup_assignments.Game.{State, own, scores, temp, niramay, round, make_files}

-- The program as it starts: three open descriptors, and no call that fails for other reasons than
-- permissions. The saved user id is the effective one, as execve leaves it.
abbrev pub started :
    Ofd → Ofd → Ofd → (Bytes → Option Bytes) → (Bytes → ℕ → Bool) → (ℕ → Bool) → ℕ → ℕ → State
started a b c files may_write may_create ruid euid = record {
  os = record { files = files; fds = some a ∷ some b ∷ some c ∷ []; faults = []; errno = 0 };
  real = ruid;
  effective = euid;
  saved = euid;
  may_write = may_write;
  may_create = may_create;
}

-- A line of a file: the digit of its round, the name of the user, and a newline.
abbrev pub line : ℕ → Bytes → Bytes
line i info = (i + 48) ∷ (info ++ 10 ∷ [])

-- What the rounds keep: own holds `x`, scores holds `y`, only the user may write the one and only the
-- owner of the program the other.
pub record Playing (ruid euid : ℕ) (a b c : Ofd) (files : Bytes → Option Bytes) (x y : Bytes)
    (s : State) : Type 0 where
  pub fds : s.os.fds ≡ some a ∷ some b ∷ some c ∷ none ∷ none ∷ []
  pub calm : s.os.faults ≡ []
  pub mine : s.os.files own ≡ some x
  pub theirs : s.os.files scores ≡ some y
  pub others :
      (name : Bytes)
      → bytes_eqb name own ≡ false
      → bytes_eqb name scores ≡ false
      → s.os.files name ≡ files name
  pub real : s.real ≡ ruid
  pub saved : s.saved ≡ euid
  pub own_user : s.may_write own ruid ≡ true
  pub own_owner : s.may_write own euid ≡ false
  pub scores_user : s.may_write scores ruid ≡ false
  pub scores_owner : s.may_write scores euid ≡ true

-- Three appending writes make a line.
three_writes :
    (x info : Bytes) (h : ℕ)
    → let w1 = write_at x (length x) (h ∷ []) in
      let w2 = write_at w1 (length w1) info in
      write_at w2 (length w2) (10 ∷ []) ≡ x ++ (h ∷ (info ++ 10 ∷ []))
three_writes x info h =
    rw
      (
        write_at-append x (h ∷ []),
        write_at-append (x ++ h ∷ []) info,
        write_at-append ((x ++ h ∷ []) ++ info) (10 ∷ []),
        append_assoc (x ++ h ∷ []) info (10 ∷ []),
        append_assoc x (h ∷ []) (info ++ 10 ∷ []),
      )
      refl

module _ {ruid euid : ℕ} {a b c : Ofd} {files : Bytes → Option Bytes} {x y : Bytes} {s : State}
    (ne : ruid ≢ euid) (v : Playing ruid euid a b c files x y s) (i : ℕ) where
  pub odd_round :
      (i % 2 == 1) ≡ true
      → ((round ruid euid i s).0 ≡ done tt)
        × Playing ruid euid a b c files (x ++ line i niramay) y (round ruid euid i s).1
  unfolding round
  odd_round odd =
      rw
        (
          odd,
          v.real,
          eq_self ruid,
          ne_test ruid euid ne,
          v.calm,
          v.mine,
          v.own_user,
          v.fds,
          v.mine,
          v.theirs,
          v.scores_user,
        )
        (
          refl,
          record {
            fds = refl;
            calm = refl;
            mine = ap some (three_writes x niramay (i + 48));
            theirs = v.theirs;
            others = λ name n1 n2. rw n1 (v.others name n1 n2);
            real = refl;
            saved = v.saved;
            own_user = v.own_user;
            own_owner = v.own_owner;
            scores_user = v.scores_user;
            scores_owner = v.scores_owner;
          },
        )

  pub even_round :
      (i % 2 == 1) ≡ false
      → ((round ruid euid i s).0 ≡ done tt)
        × Playing ruid euid a b c files x (y ++ line i temp) (round ruid euid i s).1
  unfolding round
  even_round even =
      rw
        (
          even,
          v.real,
          ne_test euid ruid (λ e. ne (sym e)),
          v.saved,
          eq_self euid,
          v.calm,
          v.mine,
          v.own_owner,
          v.theirs,
          v.scores_owner,
          v.fds,
          v.theirs,
          eq_self euid,
        )
        (
          refl,
          record {
            fds = refl;
            calm = refl;
            mine = v.mine;
            theirs = ap some (three_writes y temp (i + 48));
            others = λ name n1 n2. rw n2 (v.others name n1 n2);
            real = refl;
            saved = refl;
            own_user = v.own_user;
            own_owner = v.own_owner;
            scores_user = v.scores_user;
            scores_owner = v.scores_owner;
          },
        )

pub files_made :
    (a b c : Ofd) (files : Bytes → Option Bytes) (may_write : Bytes → ℕ → Bool)
    (may_create : ℕ → Bool) (ruid euid : ℕ)
    → ruid ≢ euid
    → ruid ≢ 0
    → euid ≢ 0
    → may_create ruid ≡ true
    → may_create euid ≡ true
    → files own ≡ none
    → files scores ≡ none
    → let (r, t) = make_files ruid euid (started a b c files may_write may_create ruid euid) in
      (r ≡ done tt) × Playing ruid euid a b c files [] [] t
unfolding make_files
files_made a b c files may_write may_create ruid euid ne zr ze cr ce fo fs =
    rw (eq_self ruid, fo, cr, fo, ne_test euid ruid (λ e. ne (sym e)), eq_self euid, fs, ce, fs)
      (
        refl,
        record {
          fds = refl;
          calm = refl;
          mine = refl;
          theirs = refl;
          others = λ name n1 n2. rw (n2, n1) refl;
          real = refl;
          saved = refl;
          own_user = rw (eq_self ruid) refl;
          own_owner = rw (ne_test euid ruid (λ e. ne (sym e)), ne_test euid 0 ze) refl;
          scores_user = rw (ne_test ruid euid ne, ne_test ruid 0 zr) refl;
          scores_owner = rw (eq_self euid) refl;
        },
      )
