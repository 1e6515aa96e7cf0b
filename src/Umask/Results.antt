-- ===== src/Umask/Results.antt =====
-- The modes of the files that umask.c makes.
use aup_assignments.Prelude.{ℕ, ◌<◌, ◌≡◌, refl, false, not, ◌&&◌, Option, none, some, List, [], ◌∷◌}
use aup_assignments.Unix.Bytes.{Bytes, bytes_eqb, bytes_eqb_refl, bytes_eqb_comm}
use aup_assignments.Unix.Proc.{exited}
use aup_assignments.Umask.{number, State, has_bit, permitted, main}
use aup_assignments.Umask.Bits.{has_bit-unmasked}

abbrev pub start : ℕ → (Bytes → Option ℕ) → List (Option ℕ) → State
start mask modes faults = record { mask = mask; modes = modes; out = []; faults = faults }

-- If no call fails, and neither of two different names is that of a file, the program prints the mask,
-- leaves it as it was, although it sets it to 0 in between, and exits with 0. Both files then have one
-- and the same mode, in which each of the nine bits of permissions is set exactly if it is set in 0666
-- and not set in the mask.
pub creates_masked :
    (first second : Bytes) (modes : Bytes → Option ℕ) (mask i : ℕ)
    → modes first ≡ none
    → modes second ≡ none
    → bytes_eqb second first ≡ false
    → i < 9
    → let r = main (first ∷ second ∷ []) (start mask modes []) in
      (r.0 ≡ exited 0)
      × (r.1.out ≡ number mask ∷ [])
      × (r.1.mask ≡ mask)
      × ((mode : ℕ) × (r.1.modes first ≡ some mode)
          × (r.1.modes second ≡ some mode)
          × (has_bit i mode ≡ has_bit i 438 && not (has_bit i mask)))
creates_masked first second modes mask i f s d h =
    rw (f, d, s)
      (
        refl,
        refl,
        refl,
        (
          permitted mask,
          rw (bytes_eqb_comm first second, d, bytes_eqb_refl first) refl,
          rw (bytes_eqb_refl second) refl,
          has_bit-unmasked i 9 438 mask h,
        ),
      )
