-- ===== src/Common/Maps.antt =====
-- `Map<string, V>`: insertion order is kept, a key that is set again keeps its place.
use Prim.Native.String.{String}
use mathlib.Core.Path.{◌≡◌, refl}
use mathlib.Core.Option.{Option, none, some}
use mathlib.Core.List.{List, [], ◌∷◌}
use mathlib.Core.Logic.{inl, inr}
use native.Mathlib.Omega.{arith}
use text.Mathlib.Text.{◌==◌ as str_eq}
use text.Mathlib.TextEquality.{eq_iff}
use ai_knowledge_system.Common.Tests.{if◌then◌else◌, Bool-cases}
use ai_knowledge_system.Common.Lists.{All}

module _ {ℓ} {V : Type ℓ} where
  -- `get`, where `none` is `undefined`.
  unfoldable pub lookup : (key : String) → List (String × V) → Option V
  lookup key [] = none
  lookup key ((name, value) ∷ rest) = if str_eq name key then some value else lookup key rest

  -- `delete`.
  unfoldable pub remove : (key : String) → List (String × V) → List (String × V)
  remove key [] = []
  remove key ((name, value) ∷ rest) =
      if str_eq name key then remove key rest else (name, value) ∷ remove key rest

  pub lookup-remove :
      (key other : String) (entries : List (String × V))
      → lookup other (remove key entries)
        ≡ (if str_eq key other then none else lookup other entries)
  unfolding lookup remove
  lookup-remove key other [] = ground arith
  lookup-remove key other ((name, value) ∷ rest) =
      ground
        (arith, lookup-remove key other rest, eq_iff name key, eq_iff name other, eq_iff key other)

  -- `set`.
  unfoldable pub insert : (key : String) → V → List (String × V) → List (String × V)
  insert key new [] = (key, new) ∷ []
  insert key new ((name, value) ∷ rest) =
      if str_eq name key then (key, new) ∷ rest else (name, value) ∷ insert key new rest

  pub lookup-insert :
      (key other : String) (new : V) (entries : List (String × V))
      → lookup other (insert key new entries)
        ≡ (if str_eq key other then some new else lookup other entries)
  unfolding lookup insert
  lookup-insert key other new [] = refl
  lookup-insert key other new ((name, value) ∷ rest) = ground (
    arith,
    lookup-insert key other new rest,
    eq_iff name key,
    eq_iff name other,
    eq_iff key other,
  )

  pub lookup-insert_self :
      (key : String) (new : V) (entries : List (String × V))
      → lookup key (insert key new entries) ≡ some new
  lookup-insert_self key new entries =
      rw (lookup-insert key key new entries, (eq_iff key key).1 refl)

  pub lookup-All {κ} :
      (P : V → Type κ) (key : String) (entries : List (String × V)) (v : V)
      → All (λ entry. P entry.1) entries
      → lookup key entries ≡ some v
      → P v
  unfolding lookup
  lookup-All P key [] v h e = cc
  lookup-All P key ((name, value) ∷ rest) v (p, h) e = elim (Bool-cases (str_eq name key)) [
    | inl here ↦ let same : value ≡ v = ground arith in rw (← same) p
    | inr later ↦ lookup-All P key rest v h (rw (later, lookup) at e)
  ]
