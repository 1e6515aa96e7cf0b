-- ===== src/Umask/Tests.antt =====
-- umask.c under the mask 022, and without its arguments.
use aup_assignments.Prelude.{ℕ, ◌≡◌, refl, not, ◌&&◌, none, some, [], ◌∷◌, arith}
use aup_assignments.Unix.Bytes.{Bytes}
use aup_assignments.Unix.Proc.{exited}
use aup_assignments.Umask.{usage, number, has_bit, permitted, main}
use aup_assignments.Umask.Results.{start, creates_masked}

abbrev a : Bytes
a = 97 ∷ []

abbrev b : Bytes
b = 98 ∷ []

-- 0644.
usual_mode : permitted 18 ≡ 420
usual_mode = refl

-- The usage is printed, and the open of the null pointer fails.
no_arguments :
    main [] (start 18 (λ _. none) [])
    ≡ (exited 14, record (start 18 (λ _. none) []) { out = usage ∷ [] })
no_arguments = refl

creates_masked_example :
    let r = main (a ∷ b ∷ []) (start 18 (λ _. none) []) in
    (r.0 ≡ exited 0)
    × (r.1.out ≡ number 18 ∷ [])
    × (r.1.mask ≡ 18)
    × ((mode : ℕ) × (r.1.modes a ≡ some mode)
        × (r.1.modes b ≡ some mode)
        × (has_bit 4 mode ≡ has_bit 4 438 && not (has_bit 4 18)))
creates_masked_example = creates_masked a b (λ _. none) 18 4 refl refl refl (ground arith)
