-- ===== src/Prelude/Gates.antt =====
-- Histories of a machine: the states that a run enters, and states that no run can avoid.
use mathlib.Core.Path.{◌≡◌, sym}
use mathlib.Core.Logic.{◌⊎◌, inl, inr}
use mathlib.Core.Bool.{Bool, true, false}
use mathlib.Core.Option.{Option, none, some}
use mathlib.Core.List.{List, [], ◌∷◌, Memᴰ}
use algebra.Prelude.Tests.{Option-cases, of_some}

-- The state after asking for each of the targets in turn; `none` if one is refused.
abbrev pub follow {ℓ} : {S : Type ℓ} → (S → S → Option S) → S → List S → Option S
follow next s [] = some s
follow next s (t ∷ ts) = elim (next s t) [ none ↦ none | some u ↦ follow next u ts ]

-- If the only way into the states that are `inside` is to ask for `gate`, every run from outside
-- that ends inside has asked for `gate`.
module _ {ℓ} {S : Type ℓ} (next : S → S → Option S) (inside : S → Bool) (gate : S)
    (enter : (s t u : S)
      → inside s ≡ false
      → next s t ≡ some u
      → (t ≡ gate) ⊎ (inside u ≡ false)) where
  pub follow-Memᴰ :
      (s : S) (ts : List S) (u : S)
      → inside s ≡ false
      → follow next s ts ≡ some u
      → inside u ≡ true
      → Memᴰ gate ts
  follow-Memᴰ s [] u out e h = absurd (cc (of_some e))
  follow-Memᴰ s (t ∷ ts) u out e h = elim (Option-cases (next s t)) [
    | inl refused ↦ absurd (cc (rw (refused, follow) at e))
    | inr (v, found) ↦ elim (enter s t v out found) [
      | inl p ↦ Memᴰ.head (sym p)
      | inr q ↦ Memᴰ.tail (follow-Memᴰ v ts u q (rw (found, follow) at e) h)
    ]
  ]

-- What every accepted move keeps, every run keeps.
module _ {ℓ} {S : Type ℓ} (next : S → S → Option S) (keeps : S → Bool)
    (step : (s t u : S) → keeps s ≡ true → next s t ≡ some u → keeps u ≡ true) where
  pub follow-keeps :
      (s : S) (ts : List S) (u : S) → keeps s ≡ true → follow next s ts ≡ some u → keeps u ≡ true
  follow-keeps s [] u h e = cc (of_some e)
  follow-keeps s (t ∷ ts) u h e = elim (Option-cases (next s t)) [
    | inl refused ↦ absurd (cc (rw (refused, follow) at e))
    | inr (v, found) ↦ follow-keeps v ts u (step s t v h found) (rw (found, follow) at e)
  ]
