-- ===== src/Umask/Bits.antt =====
-- The bits that a mask leaves of a mode.
use aup_assignments.Prelude.{
  ℕ, zero, suc, ◌+◌, ◌*◌, ◌<◌, ◌/◌, ◌%◌, ◌≡◌, Bool, true, false, not, ◌&&◌, ◌==◌, arith,
  if◌then◌else◌,
}
use aup_assignments.Umask.{has_bit, unmasked}

low_bit : (b : Bool) (n : ℕ) → ((if b then 1 else 0) + 2 * n) % 2 == 1 ≡ b
low_bit true n = ground arith
low_bit false n = ground arith

halved : (b : Bool) (n : ℕ) → ((if b then 1 else 0) + 2 * n) / 2 ≡ n
halved true n = omega arith
halved false n = omega arith

pub has_bit-unmasked :
    (i width mode mask : ℕ)
    → i < width
    → has_bit i (unmasked width mode mask) ≡ has_bit i mode && not (has_bit i mask)
has_bit-unmasked i zero mode mask h = absurd (omega arith)
has_bit-unmasked zero (suc width) mode mask h = low_bit _ (unmasked width (mode / 2) (mask / 2))
has_bit-unmasked (suc i) (suc width) mode mask h =
    rw (halved (mode % 2 == 1 && not (mask % 2 == 1)) (unmasked width (mode / 2) (mask / 2)))
      (has_bit-unmasked i width (mode / 2) (mask / 2) (omega arith))
