-- ===== src/Unix/Bytes.antt =====
-- Byte strings: names of files, and the contents of files under pwrite at a position.
use Prim.Native.Nat.{max}
use native.Mathlib.Nat.{add-zero}
use aup_assignments.Prelude.{
  ℕ, zero, suc, ◌+◌, ◌≤◌, ◌≡◌, refl, sym, ap, ◌∙◌, Bool, true, false, List, [], ◌∷◌, ◌++◌, arith,
  ◌==◌, ◌&&◌, length, take, drop, replicate, append-nil,
}

-- A C string or the contents of a file.
abbrev pub Bytes : Type 0
Bytes = List ℕ

abbrev pub bytes_eqb : Bytes → Bytes → Bool
bytes_eqb [] [] = true
bytes_eqb [] (y ∷ ys) = false
bytes_eqb (x ∷ xs) [] = false
bytes_eqb (x ∷ xs) (y ∷ ys) = x == y && bytes_eqb xs ys

pub bytes_eqb_refl : (xs : Bytes) → bytes_eqb xs xs ≡ true
bytes_eqb_refl [] = refl
bytes_eqb_refl (x ∷ xs) = ground (arith, bytes_eqb_refl xs)

pub bytes_eqb→eq : (xs ys : Bytes) → bytes_eqb xs ys ≡ true → xs ≡ ys
bytes_eqb→eq [] [] h = refl
bytes_eqb→eq [] (y ∷ ys) h = cc
bytes_eqb→eq (x ∷ xs) [] h = cc
bytes_eqb→eq (x ∷ xs) (y ∷ ys) h = ground (arith, bytes_eqb→eq xs ys)

pub bytes_eqb_comm : (xs ys : Bytes) → bytes_eqb xs ys ≡ bytes_eqb ys xs
bytes_eqb_comm [] [] = refl
bytes_eqb_comm [] (y ∷ ys) = refl
bytes_eqb_comm (x ∷ xs) [] = refl
bytes_eqb_comm (x ∷ xs) (y ∷ ys) = ground (arith, bytes_eqb_comm xs ys)

-- `bs` over the start of `c`.
overlay : Bytes → Bytes → Bytes
overlay [] bs = bs
overlay (x ∷ c) [] = x ∷ c
overlay (x ∷ c) (b ∷ bs) = b ∷ overlay c bs

-- `bs` over `c` from position `p` on; a gap is filled with zeros.
place : Bytes → ℕ → Bytes → Bytes
unfolding overlay
place c zero bs = overlay c bs
place [] (suc p) bs = 0 ∷ place [] p bs
place (x ∷ c) (suc p) bs = x ∷ place c p bs

-- The contents after a write of `bs` at position `p`. A write of no byte has no effect.
unfoldable pub write_at : Bytes → ℕ → Bytes → Bytes
unfolding place
write_at c p [] = c
write_at c p (b ∷ bs) = place c p (b ∷ bs)

pub write_at-nil : (c : Bytes) (p : ℕ) → write_at c p [] ≡ c
unfolding write_at
write_at-nil c p = refl

length-overlay : (c bs : Bytes) → length (overlay c bs) ≡ max (length c) (length bs)
unfolding overlay
length-overlay [] bs = omega arith
length-overlay (x ∷ c) [] = omega arith
length-overlay (x ∷ c) (b ∷ bs) = omega (arith, length-overlay c bs)

length-place :
    (c : Bytes) (p : ℕ) (bs : Bytes) → length (place c p bs) ≡ max (length c) (p + length bs)
unfolding place
length-place c zero bs = omega (arith, length-overlay c bs)
length-place [] (suc p) bs = omega (arith, length-place [] p bs)
length-place (x ∷ c) (suc p) bs = omega (arith, length-place c p bs)

-- A write never shortens a file.
pub length-write_at : (c : Bytes) (p : ℕ) (bs : Bytes) → length c ≤ length (write_at c p bs)
unfolding write_at
length-write_at c p [] = omega arith
length-write_at c p (b ∷ bs) = omega (arith, length-place c p (b ∷ bs))

overlay-nil : (c : Bytes) → overlay c [] ≡ c
unfolding overlay
overlay-nil [] = refl
overlay-nil (x ∷ c) = refl

place-overlay : (c xs ys : Bytes) → place (overlay c xs) (length xs) ys ≡ overlay c (xs ++ ys)
unfolding place
place-overlay [] [] ys = refl
place-overlay [] (x ∷ xs) ys = ap (λ l. x ∷ l) (place-overlay [] xs ys)
place-overlay (y ∷ c) [] ys = refl
place-overlay (y ∷ c) (x ∷ xs) ys = ap (λ l. x ∷ l) (place-overlay c xs ys)

place-place :
    (c : Bytes) (p q : ℕ) (xs ys : Bytes)
    → q ≡ p + length xs
    → place (place c p xs) q ys ≡ place c p (xs ++ ys)
unfolding place
place-place c zero q xs ys e = let f : q ≡ length xs = omega arith in rw f (place-overlay c xs ys)
place-place c (suc p) zero xs ys e = absurd (omega arith)
place-place [] (suc p) (suc q) xs ys e = ap (λ l. 0 ∷ l) (place-place [] p q xs ys (omega arith))
place-place (x ∷ c) (suc p) (suc q) xs ys e =
    ap (λ l. x ∷ l) (place-place c p q xs ys (omega arith))

-- Two writes in a row are one write of both.
pub write_at-write_at :
    (c : Bytes) (p : ℕ) (xs ys : Bytes)
    → write_at (write_at c p xs) (p + length xs) ys ≡ write_at c p (xs ++ ys)
unfolding write_at
write_at-write_at c p [] ys = rw add-zero refl
write_at-write_at c p (x ∷ xs) [] = rw append-nil refl
write_at-write_at c p (x ∷ xs) (y ∷ ys) =
    place-place c p (p + length (x ∷ xs)) (x ∷ xs) (y ∷ ys) refl

place-beyond :
    (c : Bytes) (m p : ℕ) (bs : Bytes) → p ≡ length c + m → place c p bs ≡ c ++ replicate m 0 ++ bs
unfolding place overlay
place-beyond [] zero zero bs e = refl
place-beyond [] zero (suc p) bs e = absurd (omega arith)
place-beyond [] (suc m) zero bs e = absurd (omega arith)
place-beyond [] (suc m) (suc p) bs e = ap (λ l. 0 ∷ l) (place-beyond [] m p bs (omega arith))
place-beyond (x ∷ c) m zero bs e = absurd (omega arith)
place-beyond (x ∷ c) m (suc p) bs e = ap (λ l. x ∷ l) (place-beyond c m p bs (omega arith))

-- A write at or past the end: the gap, then the bytes.
pub write_at-end :
    (c : Bytes) (m b : ℕ) (bs : Bytes)
    → write_at c (length c + m) (b ∷ bs) ≡ c ++ replicate m 0 ++ (b ∷ bs)
unfolding write_at
write_at-end c m b bs = place-beyond c m (length c + m) (b ∷ bs) refl

-- A write at the end appends.
pub write_at-append : (c bs : Bytes) → write_at c (length c) bs ≡ c ++ bs
unfolding write_at
write_at-append c [] = sym (append-nil c)
write_at-append c (b ∷ bs) =
    place-beyond c 0 (length c) (b ∷ bs) (omega arith) ∙ ap (λ l. l ++ b ∷ bs) (append-nil c)

overlay-drop : (c bs : Bytes) → overlay c bs ≡ bs ++ drop (length bs) c
unfolding overlay
overlay-drop [] [] = refl
overlay-drop [] (b ∷ bs) = sym (append-nil (b ∷ bs))
overlay-drop (x ∷ c) [] = refl
overlay-drop (x ∷ c) (b ∷ bs) = ap (λ l. b ∷ l) (overlay-drop c bs)

-- A write at the start replaces as many bytes as it has.
pub write_at-start : (c bs : Bytes) → write_at c 0 bs ≡ bs ++ drop (length bs) c
unfolding write_at place
write_at-start c [] = refl
write_at-start c (b ∷ bs) = overlay-drop c (b ∷ bs)

place-tail :
    (c : Bytes) (p : ℕ) (bs : Bytes)
    → p ≤ length c
    → length c ≤ p + length bs
    → place c p bs ≡ take p c ++ bs
unfolding place
place-tail c zero bs h g = overlay-all c bs (omega arith)
  where
    overlay-all : (c bs : Bytes) → length c ≤ length bs → overlay c bs ≡ bs
    overlay-all [] bs g = refl
    overlay-all (x ∷ c) [] g = absurd (omega arith)
    overlay-all (x ∷ c) (b ∷ bs) g = ap (λ l. b ∷ l) (overlay-all c bs (omega arith))
place-tail [] (suc p) bs h g = absurd (omega arith)
place-tail (x ∷ c) (suc p) bs h g = ap (λ l. x ∷ l) (place-tail c p bs (omega arith) (omega arith))

-- A write inside a file that reaches its end.
pub write_at-tail :
    (c : Bytes) (p b : ℕ) (bs : Bytes)
    → p ≤ length c
    → length c ≤ p + suc (length bs)
    → write_at c p (b ∷ bs) ≡ take p c ++ (b ∷ bs)
unfolding write_at
write_at-tail c p b bs h g = place-tail c p (b ∷ bs) h g
