-- ===== src/Prelude/Maps.antt =====
-- Go's `map[string]V`: entries in an order of iteration. Reading takes the first entry of a key,
-- writing replaces it.
use Prim.Native.String.{String}
use mathlib.Core.Path.{◌≡◌, refl}
use mathlib.Core.Option.{Option, none, some}
use mathlib.Core.List.{List, [], ◌∷◌}
use native.Mathlib.Omega.{arith}
use text.Mathlib.Text.{◌==◌}
use text.Mathlib.TextEquality.{eq_iff}
use kigeon.Prelude.Tests.{if◌then◌else◌}

abbrev pub Map {ℓ} : Type ℓ → Type ℓ
Map V = List (String × V)

module _ {ℓ} {V : Type ℓ} where
  unfoldable pub lookup : String → Map V → Option V
  lookup key [] = none
  lookup key ((k, value) ∷ entries) = if k == key then some value else lookup key entries

  unfoldable pub insert : String → V → Map V → Map V
  insert key new [] = (key, new) ∷ []
  insert key new ((k, value) ∷ entries) =
      let others = insert key new entries in
      if k == key then (key, new) ∷ entries else (k, value) ∷ others

  unfoldable pub delete : String → Map V → Map V
  delete key [] = []
  delete key ((k, value) ∷ entries) =
      let others = delete key entries in if k == key then others else (k, value) ∷ others

  -- Reading `other` after `key` was written or deleted.
  module _ (key other : String) where
    pub lookup-insert :
        (new : V) (entries : Map V)
        → lookup other (insert key new entries)
          ≡ (if key == other then some new else lookup other entries)
    unfolding lookup insert
    lookup-insert new [] = refl
    lookup-insert new ((k, value) ∷ entries) =
        ground (arith, lookup-insert new entries, eq_iff k key, eq_iff k other, eq_iff key other)

    pub lookup-delete :
        (entries : Map V)
        → lookup other (delete key entries) ≡ (if key == other then none else lookup other entries)
    unfolding lookup delete
    lookup-delete [] = ground arith
    lookup-delete ((k, value) ∷ entries) =
        ground (arith, lookup-delete entries, eq_iff k key, eq_iff k other, eq_iff key other)

  -- No key stands twice, as in every Go map.
  abbrev pub IsMap : Map V → Type ℓ
  IsMap [] = Unit
  IsMap ((k, v) ∷ m) = (lookup k m ≡ none) × IsMap m

pub ruleset map_laws = (lookup-insert, lookup-delete)
