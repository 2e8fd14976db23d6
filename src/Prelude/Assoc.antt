-- ===== src/Prelude/Assoc.antt =====
-- Go maps keyed by strings, as association lists.
use mathlib.Core.Path.{◌≡◌, refl}
use mathlib.Core.List.{List, [], ◌∷◌}
use mathlib.Core.Option.{Option, none, some}
use native.Mathlib.Omega.{arith}
use noitu.Prelude.Tests.{if◌then◌else◌}
use noitu.Prelude.Texts.{Text, same, same_iff}

module _ {ℓ} {V : Type ℓ} where
  unfoldable pub lookup : Text → List (Text × V) → Option V
  lookup k [] = none
  lookup k ((j, v) ∷ m) = if same j k then some v else lookup k m

  -- `m[k]`, which is the zero value where the key is missing.
  unfoldable pub lookup_or : V → Text → List (Text × V) → V
  lookup_or d k [] = d
  lookup_or d k ((j, v) ∷ m) = if same j k then v else lookup_or d k m

  -- `m[k] = v`.
  unfoldable pub insert : Text → V → List (Text × V) → List (Text × V)
  insert k v [] = (k, v) ∷ []
  insert k v ((j, w) ∷ m) = if same j k then (j, v) ∷ m else (j, w) ∷ insert k v m

module _ {ℓ} {V : Type ℓ} where
  pub lookup_or-insert :
      (d v : V) (k j : Text) (m : List (Text × V))
      → lookup_or d j (insert k v m) ≡ (if same k j then v else lookup_or d j m)
  unfolding lookup_or insert
  lookup_or-insert d v k j [] = refl
  lookup_or-insert d v k j ((i, w) ∷ m) =
      ground (arith, same_iff k j, same_iff i k, same_iff i j, lookup_or-insert d v k j m)
