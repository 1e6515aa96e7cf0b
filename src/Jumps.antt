-- ===== src/Jumps.antt =====
-- assignment_4/all_variable_types.c and assignment_4/variables_jmp.c: setjmp and longjmp, as the C
-- standard documents them, on variables of some type.
pub mod Variables
pub mod Returned
pub mod Results
mod Tests
use aup_assignments.Prelude.{
  ℕ, suc, Bool, true, false, ◌||◌, Option, none, some, List, [], ◌∷◌, ◌==◌, if◌then◌else◌,
}

-- `jumped f v` is on its way to the setjmp in the call `f`.
pub data Outcome (A : Type 0) : Type 0 where
  done : A → Outcome A
  exited : ℕ → Outcome A
  jumped : ℕ → ℕ → Outcome A
  undefined : Outcome A

-- The calls that have not returned, the innermost first, the number of the next one, the call in which
-- setjmp filled the buffer, and the variables.
pub record State (V : Type 0) : Type 0 where
  pub frames : List ℕ
  pub next : ℕ
  pub jmpbuffer : Option ℕ
  pub vars : V

abbrev pub Proc : Type 0 → Type 0 → Type 0
Proc V A = State V → Outcome A × State V

abbrev is_top : ℕ → List ℕ → Bool
is_top f [] = false
is_top f (g ∷ gs) = f == g

abbrev top : List ℕ → Option ℕ
top [] = none
top (g ∷ gs) = some g

abbrev active : ℕ → List ℕ → Bool
active f [] = false
active f (g ∷ gs) = f == g || active f gs

module _ {V : Type 0} where
  abbrev pub pure : {A : Type 0} → A → Proc V A
  pure a s = (done a, s)

  abbrev pub exit : {A : Type 0} → ℕ → Proc V A
  exit status s = (exited status, s)

  abbrev pub continue : {A B : Type 0} → Outcome A → (A → Proc V B) → Proc V B
  continue (done a) f s = f a s
  continue (exited n) f s = (exited n, s)
  continue (jumped k v) f s = (jumped k v, s)
  continue undefined f s = (undefined, s)

  infixl 5 ◌>>=◌ ◌>>◌
  abbrev pub ◌>>=◌ : {A B : Type 0} → Proc V A → (A → Proc V B) → Proc V B
  ◌>>=◌ m f s = continue (m s).0 f (m s).1

  abbrev pub ◌>>◌ : {B : Type 0} → Proc V (Unit {0}) → Proc V B → Proc V B
  m >> k = m >>= λ _. k

  abbrev pub modify : (V → V) → Proc V (Unit {0})
  modify f s = (done tt, record s { vars = f s.vars })

  abbrev pub get : Proc V V
  get s = (done s.vars, s)

  -- The call of a function.
  abbrev pub call : {A : Type 0} → Proc V A → Proc V A
  call m s =
      let (r, t) = m (record s { frames = s.next ∷ s.frames; next = suc s.next }) in
      (r, record t { frames = s.frames })

  abbrev pub returning :
      {A : Type 0} → (V → V) → (ℕ → Proc V A) → List ℕ → Outcome A × State V → Outcome A × State V
  returning lost k fs (jumped f v, t) =
      if is_top f fs
      then k (if v == 0 then 1 else v) (record t { frames = fs; vars = lost t.vars })
      else (jumped f v, t)
  returning lost k fs r = r

  -- setjmp and what follows it in its function, `k`, which gets what setjmp returns. `lost` sets the
  -- automatic variables that have no determined value after a jump. `k` jumps only the first time.
  abbrev pub setjmp : {A : Type 0} → (V → V) → (ℕ → Proc V A) → Proc V A
  setjmp lost k s = returning lost k s.frames (k 0 (record s { jmpbuffer = top s.frames }))

  abbrev pub jump : {A : Type 0} → Option ℕ → ℕ → Proc V A
  jump none v s = (undefined, s)
  jump (some f) v s = if active f s.frames then (jumped f v, s) else (undefined, s)

  -- A jump to a call that has returned is undefined.
  abbrev pub longjmp : {A : Type 0} → ℕ → Proc V A
  longjmp v s = jump s.jmpbuffer v s
