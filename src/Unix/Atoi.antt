-- ===== src/Unix/Atoi.antt =====
-- The C library's atoi: blanks, a sign, then digits up to the first other character.
use aup_assignments.Prelude.{
  ℕ, zero, suc, ◌+◌, ◌-◌, ◌*◌, ◌≡◌, refl, Bool, true, false, [], ◌∷◌, leb, ◌==◌, ◌&&◌, ◌||◌,
  if◌then◌else◌,
}
use aup_assignments.Prelude.Int.{ℤ, pos, negsuc}
use aup_assignments.Unix.Bytes.{Bytes}

abbrev is_digit : ℕ → Bool
is_digit ch = leb b'0' ch && leb ch b'9'

-- isspace
abbrev is_blank : ℕ → Bool
is_blank ch = ch == b' ' || leb 9 ch && leb ch 13

digits : ℕ → Bytes → ℕ
digits acc [] = acc
digits acc (ch ∷ cs) = elim (is_digit ch) [
  | true ↦ digits (10 * acc + (ch - b'0')) cs
  | false ↦ acc
]

-- The integer -n.
abbrev neg : ℕ → ℤ
neg zero = pos 0
neg (suc n) = negsuc n

signed : Bytes → ℤ
unfolding digits
signed [] = pos 0
signed (ch ∷ cs) =
    if ch == b'-'
    then neg (digits 0 cs)
    else if ch == b'+'
    then pos (digits 0 cs)
    else pos (digits 0 (ch ∷ cs))

-- The value is exact; where it does not fit an `int`, C leaves the result open.
unfoldable pub atoi : Bytes → ℤ
unfolding signed
atoi [] = pos 0
atoi (ch ∷ cs) = elim (is_blank ch) [ true ↦ atoi cs | false ↦ signed (ch ∷ cs) ]

atoi_digits : atoi (b'1' ∷ b'2' ∷ b'x' ∷ []) ≡ pos 12
unfolding atoi
atoi_digits = refl

atoi_blank_sign : atoi (b' ' ∷ b'-' ∷ b'7' ∷ []) ≡ negsuc 6
unfolding atoi
atoi_blank_sign = refl
