-- ===== src/Common/Dict.antt =====
-- Go's `map[K]V` as an association list. No modelled code depends on the order of its entries.
use mathlib.Core.Path.{◌≡◌, refl}
use mathlib.Core.Option.{Option, none, some}
use mathlib.Core.List.{List, [], ◌∷◌}
use native.Mathlib.Omega.{arith}
use kite.Common.Tests.{if◌then◌else◌}
use kite.Common.Equality.{Eq, ◌==◌, ==_iff}

abbrev pub Dict {ℓ κ} : Type ℓ → Type κ → Type (ℓ ⊔ κ)
Dict K V = List (K × V)

module _ {ℓ κ} {K : Type ℓ} {V : Type κ} ⦃e : Eq K⦄ where
  unfoldable pub lookup : K → Dict K V → Option V
  lookup key [] = none
  lookup key ((k, held) ∷ rest) = if k == key then some held else lookup key rest

  unfoldable pub insert : K → V → Dict K V → Dict K V
  insert key new [] = (key, new) ∷ []
  insert key new ((k, held) ∷ rest) =
      let below = insert key new rest in if k == key then (key, new) ∷ rest else (k, held) ∷ below

  unfoldable pub remove : K → Dict K V → Dict K V
  remove key [] = []
  remove key ((k, held) ∷ rest) =
      let below = remove key rest in if k == key then below else (k, held) ∷ below

  pub lookup-insert :
      (key other : K) (new : V) (d : Dict K V)
      → lookup other (insert key new d) ≡ (if key == other then some new else lookup other d)
  unfolding lookup insert
  lookup-insert key other new [] = refl
  lookup-insert key other new ((k, held) ∷ rest) =
      let below = lookup-insert key other new rest in
      ground (arith, ==_iff k key, ==_iff key other, ==_iff k other)

  pub lookup-remove :
      (key other : K) (d : Dict K V)
      → lookup other (remove key d) ≡ (if key == other then none else lookup other d)
  unfolding lookup remove
  lookup-remove key other [] = ground arith
  lookup-remove key other ((k, held) ∷ rest) =
      let below = lookup-remove key other rest in
      ground (arith, ==_iff k key, ==_iff key other, ==_iff k other)
