-- ===== src/Unix/Proc.antt =====
-- A process: a computation over the state of the system that yields a value or ends with an exit
-- status.
use aup_assignments.Prelude.{ℕ, Bool, true, false}

pub data Exec (A : Type 0) : Type 0 where
  done : A → Exec A
  exited : ℕ → Exec A

module _ {S : Type 0} where
  abbrev pub pure : {A : Type 0} → A → S → Exec A × S
  pure a s = (done a, s)

  -- `return status` in `main`, and `exit(status)`.
  abbrev pub exit : {A : Type 0} → ℕ → S → Exec A × S
  exit status s = (exited status, s)

  abbrev pub continue : {A B : Type 0} → Exec A → (A → S → Exec B × S) → S → Exec B × S
  continue (done a) f s = f a s
  continue (exited n) f s = (exited n, s)

  infixl 5 ◌>>=◌ ◌>>◌
  abbrev pub ◌>>=◌ : {A B : Type 0} → (S → Exec A × S) → (A → S → Exec B × S) → S → Exec B × S
  ◌>>=◌ m f s = continue (m s).0 f (m s).1

  abbrev pub ◌>>◌ : {B : Type 0} → (S → Exec (Unit {0}) × S) → (S → Exec B × S) → S → Exec B × S
  m >> k = m >>= λ _. k

  abbrev pub when : Bool → (S → Exec (Unit {0}) × S) → S → Exec (Unit {0}) × S
  when true m s = m s
  when false m s = (done tt, s)
