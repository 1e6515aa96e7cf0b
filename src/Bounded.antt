-- ===== src/Bounded.antt =====
-- What the bounded buffers of test_pthreads promise: a stack of characters with a limit, of which both
-- programs are implementations.
mod Tests
use mathlib.Core.Path.{subst}
use aup_assignments.Prelude.{
  ℕ, zero, suc, ◌+◌, ◌*◌, ◌≤◌, ◌<◌, ◌≡◌, refl, sym, ap, true, Option, none, some, List, [], ◌∷◌,
  ◌⊎◌, inl, inr, arith, ltb, length, if◌then◌else◌,
}
use aup_assignments.Prelude.Systems.{Steps, begin, later}

-- What is in the buffer, the last character first, and what has been printed, likewise.
pub record Buffer : Type 0 where
  pub items : List ℕ
  pub printed : List ℕ

pub data Op : Type 0 where
  push : ℕ → Op
  pop : Op

abbrev pub empty : Buffer
empty = record { items = []; printed = [] }

abbrev take_from : List ℕ → Buffer → Option Buffer
take_from [] b = none
take_from (x ∷ xs) b = some (record { items = xs; printed = x ∷ b.printed })

-- A full buffer takes nothing, an empty one gives nothing.
abbrev pub step : ℕ → Op → Buffer → Option Buffer
step max_size (push x) b =
    if ltb (length b.items) max_size then some (record b { items = x ∷ b.items }) else none
step max_size pop b = take_from b.items b

-- An operation, or none.
abbrev pub does : ℕ → Option Op → Buffer → Option Buffer
does max_size none b = some b
does max_size (some x) b = step max_size x b

-- Operations one after the other, the first one at the end of the list.
abbrev next : ℕ → Option Op → Option Buffer → Option Buffer
next max_size o none = none
next max_size o (some b) = does max_size o b

pub runs : ℕ → List (Option Op) → Option Buffer
runs max_size [] = some empty
runs max_size (o ∷ os) = next max_size o (runs max_size os)

-- The stack in the first `n` elements of an array.
abbrev pub stack : (ℕ → ℕ) → ℕ → List ℕ
stack buf zero = []
stack buf (suc n) = buf n ∷ stack buf n

length-stack : (buf : ℕ → ℕ) (n : ℕ) → length (stack buf n) ≡ n
length-stack buf zero = refl
length-stack buf (suc n) = ap suc (length-stack buf n)

stack-agree : (f g : ℕ → ℕ) (n : ℕ) → ((k : ℕ) → k < n → f k ≡ g k) → stack f n ≡ stack g n
stack-agree f g zero h = refl
stack-agree f g (suc n) h =
    rw (h n (omega arith), stack-agree f g n (λ k lt. h k (omega arith))) refl

-- The buffer that an array and a length stand for.
abbrev pub held : (ℕ → ℕ) → ℕ → List ℕ → Buffer
held buf n out = record { items = stack buf n; printed = out }

step-push :
    (max_size : ℕ) (buf : ℕ → ℕ) (n x : ℕ) (out : List ℕ)
    → n < max_size
    → buf n ≡ x
    → step max_size (push x) (held buf n out) ≡ some (held buf (suc n) out)
step-push max_size buf n x out lt e =
    let room : ltb n max_size ≡ true = ground arith in rw (length-stack buf n, room, e) refl

module _ (max_size : ℕ) {f g : ℕ → ℕ} {m n : ℕ} {xs ys : List ℕ} where
  pub does-none :
      ((k : ℕ) → k < m → g k ≡ f k)
      → n ≡ m
      → ys ≡ xs
      → does max_size none (held f m xs) ≡ some (held g n ys)
  does-none h e o = rw (o, e, stack-agree g f m h) refl

  pub does-push :
      (x : ℕ)
      → m < max_size
      → f m ≡ x
      → ((k : ℕ) → g k ≡ f k)
      → n ≡ suc m
      → ys ≡ xs
      → does max_size (some (push x)) (held f m xs) ≡ some (held g n ys)
  does-push x lt e h k o =
      rw (k, o, stack-agree g f (suc m) (λ i _. h i)) (step-push max_size f m x xs lt e)

  pub does-pop :
      ((k : ℕ) → g k ≡ f k)
      → m ≡ suc n
      → ys ≡ f n ∷ xs
      → does max_size (some pop) (held f m xs) ≡ some (held g n ys)
  does-pop h e o = rw (e, o, stack-agree g f n (λ i _. h i)) refl

pub runs-next :
    (max_size : ℕ) (o : Option Op) (os : List (Option Op)) {a b : Buffer}
    → runs max_size os ≡ some a
    → does max_size o a ≡ some b
    → runs max_size (o ∷ os) ≡ some b
unfolding runs
runs-next max_size o os h k = rw h k

pub runs-start : (max_size : ℕ) → runs max_size [] ≡ some empty
unfolding runs
runs-start max_size = refl
