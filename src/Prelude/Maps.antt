-- ===== src/Prelude/Maps.antt =====
-- Dictionaries with text keys, as association lists: the first entry of a key counts.
use Prim.Native.String.{String}
use mathlib.Core.Path.{◌≡◌, refl}
use mathlib.Core.List.{List, [], ◌∷◌}
use mathlib.Core.Option.{Option, none, some}
use text.Mathlib.Text.{◌==◌ as str_eq}
use text.Mathlib.TextEquality.{eq_iff}
use native.Mathlib.Omega.{arith}
use dlslime.Prelude.Tests.{if◌then◌else◌}

module _ {ℓ} {V : Type ℓ} where
  unfoldable pub lookup : String → List (String × V) → Option V
  lookup key [] = none
  lookup key ((first, v) ∷ rest) = if str_eq first key then some v else lookup key rest

  unfoldable pub insert : String → V → List (String × V) → List (String × V)
  insert key v [] = (key, v) ∷ []
  insert key v ((first, old) ∷ rest) =
      if str_eq first key then (key, v) ∷ rest else (first, old) ∷ insert key v rest

  -- `erase(key)`: every entry of the key goes.
  unfoldable pub erase : String → List (String × V) → List (String × V)
  erase key [] = []
  erase key ((first, v) ∷ rest) =
      let others = erase key rest in if str_eq first key then others else (first, v) ∷ others

  pub lookup-insert :
      (key other : String) (v : V) (entries : List (String × V))
      → lookup other (insert key v entries)
        ≡ (if str_eq key other then some v else lookup other entries)
  unfolding insert lookup
  lookup-insert key other v [] = refl
  lookup-insert key other v ((first, old) ∷ rest) =
      let ih = lookup-insert key other v rest in
      ground (arith, eq_iff first key, eq_iff first other, eq_iff key other)

  pub lookup-erase :
      (key other : String) (entries : List (String × V))
      → lookup other (erase key entries) ≡ (if str_eq key other then none else lookup other entries)
  unfolding erase lookup
  lookup-erase key other [] = ground arith
  lookup-erase key other ((first, v) ∷ rest) =
      let ih = lookup-erase key other rest in
      ground (arith, eq_iff first key, eq_iff first other, eq_iff key other)

  abbrev pub UniqueKeys : List (String × V) → Type ℓ
  UniqueKeys [] = Unit
  UniqueKeys ((key, v) ∷ rest) = (lookup key rest ≡ none) × UniqueKeys rest
