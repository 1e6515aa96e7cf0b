-- ===== src/Env/Names.antt =====
-- The entries that setenv makes, and the names they are those of.
use aup_assignments.Prelude.{suc, ◌≡◌, refl, true, false, [], ◌∷◌, arith, length, drop}
use aup_assignments.Unix.Bytes.{Bytes}
use aup_assignments.Env.{has_equals, is_name, named, pair}

pub is_name-has_equals : (name : Bytes) → is_name name ≡ true → has_equals name ≡ false
is_name-has_equals [] h = cc
is_name-has_equals (c ∷ cs) h = ground arith

-- An entry has one name.
pub named_unique :
    (m n e : Bytes)
    → has_equals m ≡ false
    → has_equals n ≡ false
    → named m e ≡ true
    → named n e ≡ true
    → m ≡ n
named_unique [] [] e hm hn p q = refl
named_unique [] (y ∷ n) [] hm hn p q = cc
named_unique [] (y ∷ n) (c ∷ e) hm hn p q = absurd (ground arith)
named_unique (x ∷ m) n [] hm hn p q = cc
named_unique (x ∷ m) [] (c ∷ e) hm hn p q = absurd (ground arith)
named_unique (x ∷ m) (y ∷ n) (c ∷ e) hm hn p q = ground (arith, named_unique m n e)

pub named-pair : (name value : Bytes) → named name (pair name value) ≡ true
named-pair [] value = refl
named-pair (x ∷ name) value = ground (arith, named-pair name value)

pub drop-pair : (name value : Bytes) → drop (suc (length name)) (pair name value) ≡ value
drop-pair [] value = refl
drop-pair (x ∷ name) value = drop-pair name value
