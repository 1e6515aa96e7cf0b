-- ===== src/Children/Loops.antt =====
-- What the two loops of print_child_statuses.c do.
use aup_assignments.Prelude.{
  eq_self, eq_comm, ℕ, zero, suc, ◌+◌, ◌%◌, ◌^◌, ◌<◌, ◌≡◌, refl, sym, ap, ◌∙◌, Bool, true, false,
  Option, none, some, List, [], ◌∷◌, ◌++◌, map, ◌==◌, arith, append_assoc, append-nil,
  if◌then◌else◌, length, length-append, get_elem?, All,
}
use aup_assignments.Unix.Proc.{done, exited}
use aup_assignments.Children.{
  Line, not_yet, terminated, Fate, running, exits, signaled, is_running, State, eagain,
  make_children, find, remove, ask_kid, ask, ask_all,
}

-- The process ids of children alive at one time are different.
abbrev pub Distinct : List ℕ → Type 0
Distinct [] = Unit
Distinct (p ∷ ps) = All (λ q. (q == p) ≡ false) ps × Distinct ps

-- The line for child number `i`.
abbrev pub line_of : Fate → ℕ → ℕ → Line
line_of running p i = not_yet p
line_of exits p i = terminated p (i % 2 ^ 8)
line_of signaled p i = terminated p 0

-- The report on the children `ps`, of which the first is number `i`.
abbrev pub expected : (ℕ → Fate) → ℕ → List ℕ → List Line
expected fate i [] = []
expected fate i (p ∷ ps) = line_of (fate p) p i ∷ expected fate (suc i) ps

-- The children made.
abbrev pub push_all : ℕ → List ℕ → List (ℕ × ℕ) → List (ℕ × ℕ)
push_all i [] kids = kids
push_all i (p ∷ ps) kids = push_all (suc i) ps ((p, i % 2 ^ 8) ∷ kids)

-- Each of `ps` is a child that has not been waited for.
abbrev pub Listed : ℕ → List ℕ → List (ℕ × ℕ) → Type 0
Listed i [] kids = Unit
Listed i (p ∷ ps) kids = (find kids p ≡ some (i % 2 ^ 8)) × Listed (suc i) ps kids

find-push_all :
    (i p : ℕ) (ps : List ℕ) (kids : List (ℕ × ℕ))
    → All (λ q. (q == p) ≡ false) ps
    → find (push_all i ps kids) p ≡ find kids p
unfolding find
find-push_all i p [] kids h = refl
find-push_all i p (q ∷ ps) kids h =
    find-push_all (suc i) p ps ((q, i % 2 ^ 8) ∷ kids) h.1 ∙ rw (eq_comm q p h.0) refl

pub push_all-Listed :
    (i : ℕ) (ps : List ℕ) (kids : List (ℕ × ℕ)) → Distinct ps → Listed i ps (push_all i ps kids)
unfolding find
push_all-Listed i [] kids d = tt
push_all-Listed i (p ∷ ps) kids d = (
  find-push_all (suc i) p ps ((p, i % 2 ^ 8) ∷ kids) d.0 ∙ rw (eq_self p) refl,
  push_all-Listed (suc i) ps ((p, i % 2 ^ 8) ∷ kids) d.1,
)

find-remove :
    (kids : List (ℕ × ℕ)) (p q : ℕ) → (q == p) ≡ false → find (remove kids p) q ≡ find kids q
unfolding find remove
find-remove [] p q h = refl
find-remove ((r, status) ∷ kids) p q h = ground (arith, find-remove kids p q h)

Listed-remove :
    (i : ℕ) (ps : List ℕ) (kids : List (ℕ × ℕ)) (p : ℕ)
    → All (λ q. (q == p) ≡ false) ps
    → Listed i ps kids
    → Listed i ps (remove kids p)
Listed-remove i [] kids p h l = tt
Listed-remove i (q ∷ ps) kids p h l =
    (find-remove kids p q h.0 ∙ l.0, Listed-remove (suc i) ps kids p h.1 l.1)

-- The state after the first loop.
abbrev pub grown : ℕ → List ℕ → List (Option ℕ) → State → State
grown i ps rest s = record s { forks = rest; kids = push_all i ps s.kids; pids = s.pids ++ ps }

pub make_children_lem :
    (i : ℕ) (ps : List ℕ) (rest : List (Option ℕ)) (s : State)
    → s.forks ≡ map some ps ++ rest
    → make_children (length ps) i s ≡ (done tt, grown i ps rest s)
unfolding make_children
make_children_lem i [] rest s h = rw (append-nil s.pids, sym h) refl
make_children_lem i (p ∷ ps) rest s h = rw h (
    make_children_lem (suc i) ps rest _ refl
    ∙ ap
        (λ l. (
          done tt,
          record s { forks = rest; kids = push_all (suc i) ps ((p, i % 2 ^ 8) ∷ s.kids); pids = l },
        ))
        (append_assoc s.pids (p ∷ []) ps))

-- The first loop up to a fork that fails.
pub make_children-stops :
    (n i : ℕ) (ps : List ℕ) (rest : List (Option ℕ)) (s : State)
    → length ps < n
    → s.forks ≡ map some ps ++ none ∷ rest
    → make_children n i s ≡ (exited eagain, grown i ps rest s)
unfolding make_children
make_children-stops zero i ps rest s lt h = absurd (omega arith)
make_children-stops (suc n) i [] rest s lt h = rw (append-nil s.pids) (rw h refl)
make_children-stops (suc n) i (p ∷ ps) rest s lt h = rw h (
    make_children-stops n (suc i) ps rest _ (omega arith) refl
    ∙ ap
        (λ l. (
          exited eagain,
          record s { forks = rest; kids = push_all (suc i) ps ((p, i % 2 ^ 8) ∷ s.kids); pids = l },
        ))
        (append_assoc s.pids (p ∷ []) ps))

pub length-push_all :
    (i : ℕ) (ps : List ℕ) (kids : List (ℕ × ℕ))
    → length (push_all i ps kids) ≡ length ps + length kids
length-push_all i [] kids = omega arith
length-push_all i (p ∷ ps) kids = length-push_all (suc i) ps ((p, i % 2 ^ 8) ∷ kids) ∙ omega arith

get_elem?-middle :
    (xs : List ℕ) (p : ℕ) (ps : List ℕ) → get_elem? (xs ++ p ∷ ps) (length xs) ≡ some p
get_elem?-middle [] p ps = refl
get_elem?-middle (x ∷ xs) p ps = get_elem?-middle xs p ps

-- The state after child number `i` has been asked for.
abbrev after : ℕ → ℕ → State → State
after p i s = record s {
  kids = if is_running (s.fate p) then s.kids else remove s.kids p;
  out = s.out ++ line_of (s.fate p) p i ∷ [];
}

ask_kid_lem :
    (f : Fate) (p i : ℕ) (s : State)
    → s.fate p ≡ f
    → ask_kid (some (i % 2 ^ 8)) p s ≡ (done tt, after p i s)
unfolding ask_kid
ask_kid_lem running p i s e = rw e refl
ask_kid_lem exits p i s e = rw e refl
ask_kid_lem signaled p i s e = rw e refl

ask_lem :
    (p i : ℕ) (s : State)
    → find s.kids p ≡ some (i % 2 ^ 8)
    → ask (some p) s ≡ (done tt, after p i s)
unfolding ask
ask_lem p i s h = rw h (ask_kid_lem (s.fate p) p i s refl)

Listed-after :
    (b : Bool) (i p : ℕ) (ps : List ℕ) (kids : List (ℕ × ℕ))
    → All (λ q. (q == p) ≡ false) ps
    → Listed i ps kids
    → Listed i ps (if b then kids else remove kids p)
Listed-after true i p ps kids h l = l
Listed-after false i p ps kids h l = Listed-remove i ps kids p h l

length-snoc : (xs : List ℕ) (p : ℕ) → length (xs ++ p ∷ []) ≡ suc (length xs)
length-snoc xs p = length-append xs (p ∷ []) ∙ omega arith

-- The second loop from the child after `asked` on.
pub ask_all_lem :
    (i : ℕ) (asked ps : List ℕ) (s : State)
    → Distinct ps
    → s.pids ≡ asked ++ ps
    → Listed i ps s.kids
    → (t : State) × (ask_all (length ps) (length asked) s ≡ (done tt, t))
      × (t.out ≡ s.out ++ expected s.fate i ps)
      × (t.pids ≡ s.pids)
unfolding ask_all
ask_all_lem i asked [] s d e l = (s, refl, sym (append-nil s.out), refl)
ask_all_lem i asked (p ∷ ps) s d e l =
    let (t, run, out, same) =
      ask_all_lem (suc i) (asked ++ p ∷ []) ps (after p i s) d.1
        (e ∙ sym (append_assoc asked (p ∷ []) ps))
        (Listed-after (is_running (s.fate p)) (suc i) p ps s.kids d.0 l.1) in
    let here : get_elem? s.pids (length asked) ≡ some p =
      ap (λ l. get_elem? l (length asked)) e ∙ get_elem?-middle asked p ps in
    (
      t,
      rw (here, ask_lem p i s l.0, ← length-snoc asked p) run,
      out ∙ append_assoc s.out _ (expected s.fate (suc i) ps),
      same,
    )
