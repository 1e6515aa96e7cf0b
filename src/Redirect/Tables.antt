-- ===== src/Redirect/Tables.antt =====
-- The descriptor table through open, close and dup, and the word that scanf reads.
use aup_assignments.Prelude.{
  ℕ, zero, suc, ◌≡◌, refl, true, false, Option, none, some, List, [], ◌∷◌, ◌++◌, set, All,
}
use aup_assignments.Unix.Bytes.{Bytes}
use aup_assignments.Redirect.{Target, lowest, alloc, at, is_space, up_to_space, first_word}

pub at-alloc : (fds : List (Option Target)) (t : Target) → at (alloc fds t) (lowest fds) ≡ some t
at-alloc [] t = refl
at-alloc (none ∷ fds) t = refl
at-alloc (some u ∷ fds) t = at-alloc fds t

-- A descriptor that is opened and closed again leaves every other as it was.
abbrev pub opened_closed : List (Option Target) → Target → List (Option Target)
opened_closed fds t = set (alloc fds t) (lowest fds) none

pub at-opened_closed :
    (fds : List (Option Target)) (t : Target) (k : ℕ) → at (opened_closed fds t) k ≡ at fds k
at-opened_closed [] t zero = refl
at-opened_closed [] t (suc k) = refl
at-opened_closed (none ∷ fds) t zero = refl
at-opened_closed (none ∷ fds) t (suc k) = refl
at-opened_closed (some u ∷ fds) t zero = refl
at-opened_closed (some u ∷ fds) t (suc k) = at-opened_closed fds t k

up_to_space-append :
    (word after : Bytes)
    → All (λ c. is_space c ≡ false) word
    → up_to_space after ≡ []
    → up_to_space (word ++ after) ≡ word
up_to_space-append [] after w e = e
up_to_space-append (c ∷ word) after w e = rw (w.0, up_to_space-append word after w.1 e) refl

-- White space, a word, and nothing or white space behind it.
pub first_word-append :
    (blanks word after : Bytes) (c : ℕ)
    → All (λ b. is_space b ≡ true) blanks
    → All (λ b. is_space b ≡ false) (c ∷ word)
    → up_to_space after ≡ []
    → first_word (blanks ++ (c ∷ word) ++ after) ≡ c ∷ word
first_word-append [] word after c s w e = rw (w.0, up_to_space-append word after w.1 e) refl
first_word-append (b ∷ blanks) word after c s w e =
    rw (s.0, first_word-append blanks word after c s.1 w e) refl
