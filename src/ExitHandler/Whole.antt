-- ===== src/ExitHandler/Whole.antt =====
-- What both processes have printed, and which part of it has been written.
use aup_assignments.Prelude.{
  ℕ, ◌≡◌, refl, Bool, true, false, some, List, [], ◌∷◌, ◌++◌, append-nil, append_assoc, arith,
}
use mathlib.Core.Path.{subst, sym}
use mathlib.Core.Option.{some-injective}
use aup_assignments.Prelude.Shuffle.{Shuffle, nothing, Shuffle-flip, Shuffle-append_left}
use aup_assignments.Prelude.Systems.{Steps-keep}
use aup_assignments.Unix.Stdio.{left, written}
use aup_assignments.ExitHandler.{
  Handler, exit_handler, Line, handled, child_done, parent_done, Parent, registering, forking,
  unregistered, quitting, failed, Child, unborn, State, Event, parent_moves, child_moves,
  parent_fails, parent_at, child_at, fails_at, step, Reach,
}
use aup_assignments.ExitHandler.Invariant.{Inv, BirthOk, HandlersOk, ChildHandlersOk, step-Inv}

-- The line of the handler, once it is no longer registered.
abbrev pub ran : List Handler → List Line
ran [] = handled ∷ []
ran _ = []

abbrev pub parent_lines : Parent → List Handler → List Line
parent_lines Parent.exiting hs = parent_done ∷ ran hs
parent_lines Parent.ended hs = parent_done ∷ ran hs
parent_lines quitting hs = ran hs
parent_lines failed hs = ran hs
parent_lines _ hs = []

abbrev pub child_lines : Child → List Handler → List Line
child_lines Child.exiting hs = child_done ∷ ran hs
child_lines Child.ended hs = child_done ∷ ran hs
child_lines _ hs = []

-- Of the lines `ps` and `cs`, those that are not in a buffer have been written.
pub record Shown (ps cs pb cb out : List Line) : Type 0 where
  pub parent_written : List Line
  pub child_written : List Line
  pub parent_split : ps ≡ parent_written ++ pb
  pub child_split : cs ≡ child_written ++ cb
  pub shuffled : Shuffle parent_written child_written out

module _ {ps cs pb cb out : List Line} where
  flip : Shown ps cs pb cb out → Shown cs ps cb pb out
  flip v = record {
    parent_written = v.child_written;
    child_written = v.parent_written;
    parent_split = v.child_split;
    child_split = v.parent_split;
    shuffled = Shuffle-flip v.shuffled;
  }

  -- What is written out at exit.
  flushed : Shown ps cs pb cb out → Shown ps cs [] cb (out ++ pb)
  flushed v = record {
    parent_written = v.parent_written ++ pb;
    child_written = v.child_written;
    parent_split = rw (append-nil (v.parent_written ++ pb)) v.parent_split;
    child_split = v.child_split;
    shuffled = Shuffle-append_left pb v.shuffled;
  }

  -- A line that stays in the buffer.
  kept : (l : Line) → Shown ps cs pb cb out → Shown (ps ++ l ∷ []) cs (pb ++ l ∷ []) cb out
  kept l v = record {
    parent_written = v.parent_written;
    child_written = v.child_written;
    parent_split = rw (v.parent_split, append_assoc v.parent_written pb (l ∷ [])) refl;
    child_split = v.child_split;
    shuffled = v.shuffled;
  }

printed :
    (now : Bool) (l : Line) {ps cs pb cb out : List Line}
    → Shown ps cs pb cb out
    → Shown (ps ++ l ∷ []) cs (left now pb l) cb (written now pb l out)
printed true l v = flushed (kept l v)
printed false l v = kept l v

child_printed :
    (now : Bool) (l : Line) {ps cs pb cb out : List Line}
    → Shown ps cs pb cb out
    → Shown ps (cs ++ l ∷ []) pb (left now cb l) (written now cb l out)
child_printed now l v = flip (printed now l (flip v))

abbrev ShownOf : State → Type 0
ShownOf s =
    Shown (parent_lines s.parent s.parent_handlers) (child_lines s.child s.child_handlers)
      s.parent_buf s.child_buf s.out

-- At fork, nothing has been printed.
append-empty : (xs ys : List Line) → xs ++ ys ≡ [] → ys ≡ []
append-empty [] ys h = h
append-empty (x ∷ xs) ys h = cc

nothing_kept : {cs pb cb out : List Line} → Shown [] cs pb cb out → pb ≡ []
nothing_kept v = append-empty _ _ (sym v.parent_split)

nothing_forked : {pb cb out : List Line} → Shown [] [] pb cb out → Shown [] [] pb pb out
nothing_forked {pb} {cb} {out} v =
    subst (λ b. Shown [] [] pb b out) {x = cb} (rw (nothing_kept v, nothing_kept (flip v)) refl) v

forked : {cs pb cb out : List Line} → cs ≡ [] → Shown [] cs pb cb out → Shown [] [] pb pb out
forked {cs} {pb} {cb} {out} e v = nothing_forked (subst (λ xs. Shown [] xs pb cb out) e v)

silent_child : (c : Child) (hs : List Handler) → BirthOk forking c → child_lines c hs ≡ []
silent_child unborn hs b = refl
silent_child Child.printing hs b = refl
silent_child Child.exiting hs b = elim b [ ]
silent_child Child.ended hs b = elim b [ ]

parent_at-Shown :
    (now : Bool) (q : Parent) (hs : List Handler) (s : State) {t : State}
    → s.parent ≡ q
    → s.parent_handlers ≡ hs
    → HandlersOk q hs
    → BirthOk q s.child
    → Shown
        (parent_lines q hs)
        (child_lines s.child s.child_handlers)
        s.parent_buf
        s.child_buf
        s.out
    → parent_at now q s ≡ some t
    → ShownOf t
unfolding parent_at
parent_at-Shown now registering hs s e f v b w h = subst ShownOf (some-injective _ _ h) w
parent_at-Shown now forking hs s e f v b w h =
    subst ShownOf (some-injective _ _ h) (forked (silent_child s.child s.child_handlers b) w)
parent_at-Shown now Parent.printing hs s e f v b w h =
    subst ShownOf (some-injective _ _ h) (rw (f, v) (printed now parent_done w))
parent_at-Shown now Parent.exiting [] s e f v b w h =
    subst ShownOf (some-injective _ _ h) (rw f (flushed w))
parent_at-Shown now Parent.exiting (exit_handler ∷ []) s e f v b w h =
    subst ShownOf (some-injective _ _ h) (rw (f, e) (printed now handled w))
parent_at-Shown now unregistered hs s e f v b w h =
    subst ShownOf (some-injective _ _ h) (rw (f, v) (flushed w))
parent_at-Shown now quitting [] s e f v b w h =
    subst ShownOf (some-injective _ _ h) (rw f (flushed w))
parent_at-Shown now quitting (exit_handler ∷ []) s e f v b w h =
    subst ShownOf (some-injective _ _ h) (rw (f, e) (printed now handled w))
parent_at-Shown now Parent.exiting (k ∷ l ∷ hs) s e f v b w h = ground arith
parent_at-Shown now quitting (k ∷ l ∷ hs) s e f v b w h = ground arith
parent_at-Shown now _ hs s e f v b w h = cc

child_at-Shown :
    (now : Bool) (q : Child) (hs : List Handler) (s : State) {t : State}
    → s.child ≡ q
    → s.child_handlers ≡ hs
    → ChildHandlersOk q hs
    → Shown
        (parent_lines s.parent s.parent_handlers)
        (child_lines q hs)
        s.parent_buf
        s.child_buf
        s.out
    → child_at now q s ≡ some t
    → ShownOf t
unfolding child_at
child_at-Shown now unborn hs s e f v w h = cc
child_at-Shown now Child.printing hs s e f v w h =
    subst ShownOf (some-injective _ _ h) (rw (f, v) (child_printed now child_done w))
child_at-Shown now Child.exiting [] s e f v w h =
    subst ShownOf (some-injective _ _ h) (rw f (flip (flushed (flip w))))
child_at-Shown now Child.exiting (exit_handler ∷ []) s e f v w h =
    subst ShownOf (some-injective _ _ h) (rw (f, e) (child_printed now handled w))
child_at-Shown now Child.exiting (k ∷ l ∷ hs) s e f v w h = ground arith
child_at-Shown now Child.ended hs s e f v w h = cc

fails_at-Shown :
    (q : Parent) (e : ℕ) (s : State) {t : State}
    → HandlersOk q s.parent_handlers
    → Shown
        (parent_lines q s.parent_handlers)
        (child_lines s.child s.child_handlers)
        s.parent_buf
        s.child_buf
        s.out
    → fails_at q e s ≡ some t
    → ShownOf t
fails_at-Shown registering e s v w h = subst ShownOf (some-injective _ _ h) w
fails_at-Shown forking e s v w h = subst ShownOf (some-injective _ _ h) (rw v w)
fails_at-Shown _ e s v w h = cc

pub record Known (s : State) : Type 0 where
  pub inv : Inv s
  pub shown : ShownOf s

module _ (now : Bool) where
  step-ShownOf : (e : Event) (s t : State) → Known s → step now e s ≡ some t → ShownOf t
  unfolding step
  step-ShownOf parent_moves s t k h =
      parent_at-Shown now s.parent s.parent_handlers s refl refl k.inv.handlers_ok k.inv.birth_ok
        k.shown h
  step-ShownOf child_moves s t k h =
      child_at-Shown now s.child s.child_handlers s refl refl k.inv.child_handlers_ok k.shown h
  step-ShownOf (parent_fails e) s t k h = fails_at-Shown s.parent e s k.inv.handlers_ok k.shown h

  pub Reach-Known : {n : ℕ} {s : State} → Reach now n s → Known s
  Reach-Known =
      Steps-keep Known
        (record {
          inv = ground arith;
          shown = record {
            parent_written = [];
            child_written = [];
            parent_split = refl;
            child_split = refl;
            shuffled = nothing;
          };
        })
        (λ e s t k h. record { inv = step-Inv now e s t k.inv h; shown = step-ShownOf e s t k h })
