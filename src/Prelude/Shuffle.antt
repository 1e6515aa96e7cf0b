-- ===== src/Prelude/Shuffle.antt =====
-- The interleavings of two lists.
use mathlib.Core.Path.{◌≡◌, refl, ap}
use mathlib.Core.List.{List, [], ◌∷◌, ◌++◌}

-- `zs` is made of `xs` and `ys`, each in its order.
pub data Shuffle {A : Type 0} : List A → List A → List A → Type 0 where
  nothing : Shuffle [] [] []
  from_left : {xs ys zs : List A} (x : A) → Shuffle xs ys zs → Shuffle (x ∷ xs) ys (x ∷ zs)
  from_right : {xs ys zs : List A} (y : A) → Shuffle xs ys zs → Shuffle xs (y ∷ ys) (y ∷ zs)

module _ {A : Type 0} where
  -- What is printed last goes to the end.
  pub Shuffle-last_left :
      {xs ys zs : List A} (a : A) → Shuffle xs ys zs → Shuffle (xs ++ a ∷ []) ys (zs ++ a ∷ [])
  Shuffle-last_left a nothing = from_left a nothing
  Shuffle-last_left a (from_left x h) = from_left x (Shuffle-last_left a h)
  Shuffle-last_left a (from_right y h) = from_right y (Shuffle-last_left a h)

  pub Shuffle-last_right :
      {xs ys zs : List A} (a : A) → Shuffle xs ys zs → Shuffle xs (ys ++ a ∷ []) (zs ++ a ∷ [])
  Shuffle-last_right a nothing = from_right a nothing
  Shuffle-last_right a (from_left x h) = from_left x (Shuffle-last_right a h)
  Shuffle-last_right a (from_right y h) = from_right y (Shuffle-last_right a h)

  pub Shuffle-flip : {xs ys zs : List A} → Shuffle xs ys zs → Shuffle ys xs zs
  Shuffle-flip nothing = nothing
  Shuffle-flip (from_left x h) = from_right x (Shuffle-flip h)
  Shuffle-flip (from_right y h) = from_left y (Shuffle-flip h)

  only_left : (xs : List A) → Shuffle xs [] xs
  only_left [] = nothing
  only_left (x ∷ xs) = from_left x (only_left xs)

  -- What one of both prints last, one line after the other.
  pub Shuffle-append_left :
      {xs ys zs : List A} (us : List A) → Shuffle xs ys zs → Shuffle (xs ++ us) ys (zs ++ us)
  Shuffle-append_left us nothing = only_left us
  Shuffle-append_left us (from_left x h) = from_left x (Shuffle-append_left us h)
  Shuffle-append_left us (from_right y h) = from_right y (Shuffle-append_left us h)

  -- The interleaving with nothing.
  pub Shuffle-alone : {xs ys zs : List A} → ys ≡ [] → Shuffle xs ys zs → zs ≡ xs
  Shuffle-alone e nothing = refl
  Shuffle-alone e (from_left x h) = ap (λ us. x ∷ us) (Shuffle-alone e h)
  Shuffle-alone e (from_right y h) = cc
