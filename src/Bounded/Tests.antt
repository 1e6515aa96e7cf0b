-- ===== src/Bounded/Tests.antt =====
-- Operations on a bounded buffer.
use aup_assignments.Prelude.{◌≡◌, refl, none, some, [], ◌∷◌}
use aup_assignments.Bounded.{push, pop, empty, step}

last_in_first_out :
    step 5 pop (record { items = 2 ∷ 1 ∷ []; printed = [] })
    ≡ some (record { items = 1 ∷ []; printed = 2 ∷ [] })
last_in_first_out = refl

full_and_empty :
    (step 1 (push 7) (record { items = 2 ∷ []; printed = [] }) ≡ none) × (step 1 pop empty ≡ none)
full_and_empty = (refl, refl)
