-- ===== src/Prelude/Systems.antt =====
-- Programs as transition systems: a state, and an event that may happen in it or not. The modules of
-- programs whose processes or handlers interleave take their reachable states from here.
use Prim.Native.Nat.{ℕ, suc, ◌+◌, ◌≤◌, ◌<◌}
use mathlib.Core.Path.{◌≡◌}
use mathlib.Core.Logic.{inl, inr}
use mathlib.Core.List.{List, [], ◌∷◌}
use mathlib.Core.Option.{Option, some}
use native.Mathlib.Omega.{arith}
use aup_assignments.Prelude.Tests.{Option-cases}

-- The states after `n` events, from `init` on; `none` means that an event cannot happen.
pub data Steps {S E : Type 0} (init : S) (step : E → S → Option S) : ℕ → S → Type 0 where
  begin : Steps init step 0 init
  later :
      {n : ℕ} {s t : S} (e : E)
      → Steps init step n s
      → step e s ≡ some t
      → Steps init step (suc n) t

-- An event that can happen.
abbrev pub Goes : {S E : Type 0} → (E → S → Option S) → S → Type 0
Goes {S} {E} step s = (e : E) × (t : S) × (step e s ≡ some t)

module _ {S E : Type 0} {init : S} {step : E → S → Option S} where
  -- A property of the first state that every event keeps.
  pub Steps-keep :
      (P : S → Type 0)
      → P init
      → ((e : E) (s t : S) → P s → step e s ≡ some t → P t)
      → {n : ℕ} {s : S} → Steps init step n s
      → P s
  Steps-keep P h keep begin = h
  Steps-keep P h keep (later {s = s} {t = t} e r k) = keep e s t (Steps-keep P h keep r) k

  -- Events that lower a weight are no more than it is at first.
  pub Steps-bound :
      (P : S → Type 0) (weight : S → ℕ)
      → P init
      → ((e : E) (s t : S) → P s → step e s ≡ some t → P t)
      → ((e : E) (s t : S) → P s → step e s ≡ some t → weight t < weight s)
      → {n : ℕ} {s : S} → Steps init step n s
      → n + weight s ≤ weight init
  Steps-bound P weight h keep lower begin = omega arith
  Steps-bound P weight h keep lower (later {s = s} {t = t} e r k) =
      omega (arith, Steps-bound P weight h keep lower r, lower e s t (Steps-keep P h keep r) k)

-- A reachable state with the way to it.
pub record Run {S E : Type 0} (init : S) (step : E → S → Option S) : Type 0 where
  pub steps : ℕ
  pub last : S
  pub path : Steps init step steps last

module _ {S E : Type 0} {init : S} {step : E → S → Option S} where
  abbrev pub start : Run init step
  start = record { steps = 0; last = init; path = begin }

  -- An event that cannot happen is skipped.
  then : Run init step → E → Run init step
  unfolding Option-cases
  then r e = elim (Option-cases (step e r.last)) [
    | inl _ ↦ r
    | inr (t, h) ↦ record { steps = suc r.steps; last = t; path = later e r.path h }
  ]

  unfoldable pub run : List E → Run init step → Run init step
  unfolding then
  run [] r = r
  run (e ∷ es) r = run es (then r e)
