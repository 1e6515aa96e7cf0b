-- ===== src/Timing/Clock.antt =====
-- What the difference of two values of tv_usec says of the time between them.
use aup_assignments.Prelude.{ℕ, ◌+◌, ◌-◌, ◌*◌, ◌/◌, ◌%◌, ◌≤◌, ◌≡◌, arith}
use aup_assignments.Prelude.Int.{ℤ, pos, negsuc, minus, ◌+ℤ◌, InRange}
use aup_assignments.Timing.{second}

-- What the program takes for the microseconds from `a` to `b`.
abbrev pub took : ℕ → ℕ → ℤ
took a b = minus (b % second) (a % second)

minus-InRange : (b x y : ℕ) → x ≤ b → y ≤ b → InRange b (minus x y)
minus-InRange b x y h k = ground arith

pub took-InRange : (a b : ℕ) → InRange 999999 (took a b)
took-InRange a b = minus-InRange 999999 (b % second) (a % second) (omega arith) (omega arith)

-- The time from `a` to `b` without the seconds that begin in it.
abbrev pub shown : ℕ → ℕ → ℤ
shown a b = minus (b - a) ((b / second - a / second) * second)

minus-eq : (x y z w : ℕ) → x + w ≡ z + y → minus x y ≡ minus z w
minus-eq x y z w h = ground arith

pub took-shown : (a b : ℕ) → a ≤ b → took a b ≡ shown a b
took-shown a b h =
    minus-eq (b % second) (a % second) (b - a) ((b / second - a / second) * second) (omega arith)

pub plus-InRange : (b c : ℕ) (x y : ℤ) → InRange b x → InRange c y → InRange (b + c) (x +ℤ y)
plus-InRange b c (pos m) (pos n) h k = ground arith
plus-InRange b c (pos m) (negsuc n) h k = ground arith
plus-InRange b c (negsuc m) (pos n) h k = ground arith
plus-InRange b c (negsuc m) (negsuc n) h k = ground arith
