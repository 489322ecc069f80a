-- ===== src/Prelude/Maps.antt =====
-- A `BTreeMap` by texts: an association list whose keys ascend byte by byte.
use mathlib.Core.Path.{◌≡◌}
use mathlib.Core.Logic.{◌≢◌}
use mathlib.Core.Bool.{Bool, true, false}
use mathlib.Core.Option.{Option, none, some}
use mathlib.Core.List.{List, [], ◌∷◌}
use native.Mathlib.Omega.{arith}
use uniclaw.Prelude.Tests.{ltb, ◌==◌, if◌then◌else◌}
use uniclaw.Prelude.Texts.{Text, Text-discrete}

abbrev pub Map {ℓ} : Type ℓ → Type ℓ
Map A = List (Text × A)

-- The order of texts by their bytes.
unfoldable pub precedes : Text → Text → Bool
precedes [] [] = false
precedes [] (d ∷ b) = true
precedes (c ∷ a) [] = false
precedes (c ∷ a) (d ∷ b) = let rest = precedes a b in if c == d then rest else ltb c d

module _ {ℓ} {A : Type ℓ} where
  unfoldable pub lookup : Text → Map A → Option A
  lookup k [] = none
  lookup k ((j, b) ∷ m) =
      let rest = lookup k m in elim (Text-discrete k j) [ yes _ ↦ some b | no _ ↦ rest ]

  unfoldable pub insert : Text → A → Map A → Map A
  insert k a [] = (k, a) ∷ []
  insert k a ((j, b) ∷ m) =
      let rest = insert k a m in
      elim (Text-discrete k j) [
        | yes _ ↦ (k, a) ∷ m
        | no _ ↦ if precedes k j then (k, a) ∷ (j, b) ∷ m else (j, b) ∷ rest
      ]

  pub lookup-insert : (k : Text) (a : A) (m : Map A) → lookup k (insert k a m) ≡ some a
  unfolding lookup insert
  lookup-insert k a [] = ground arith
  lookup-insert k a ((j, b) ∷ m) = ground (arith, lookup-insert k a m)

  pub lookup-insert_other :
      (i k : Text) (a : A) (m : Map A) → i ≢ k → lookup i (insert k a m) ≡ lookup i m
  unfolding lookup insert
  lookup-insert_other i k a [] n = ground arith
  lookup-insert_other i k a ((j, b) ∷ m) n = ground (arith, lookup-insert_other i k a m n)
