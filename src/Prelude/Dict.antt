-- ===== src/Prelude/Dict.antt =====
-- Go's `map[string]V` as an association list.
use go_exchange_connector.Prelude.Tests.{if◌then◌else◌}
use go_exchange_connector.Prelude.Texts.{Text, eqb, eqb_iff}
use mathlib.Core.Path.{◌≡◌, refl}
use mathlib.Core.Bool.{true}
use mathlib.Core.List.{List, [], ◌∷◌}
use mathlib.Core.Option.{Option, none, some}
use native.Mathlib.Omega.{arith}

module _ {ℓ} {V : Type ℓ} where
  -- `v, ok := m[k]`
  unfoldable pub lookup : Text → List (Text × V) → Option V
  lookup j [] = none
  lookup j ((k, v) ∷ m) = if eqb j k then some v else lookup j m

  -- `m[k] = v`
  unfoldable pub put : Text → V → List (Text × V) → List (Text × V)
  put j v [] = (j, v) ∷ []
  put j v ((k, w) ∷ m) = if eqb j k then (j, v) ∷ m else (k, w) ∷ put j v m

  -- `delete(m, k)`
  unfoldable pub remove : Text → List (Text × V) → List (Text × V)
  remove j [] = []
  remove j ((k, w) ∷ m) = let rest = remove j m in if eqb j k then rest else (k, w) ∷ rest

  pub lookup_congr : (i j : Text) (m : List (Text × V)) → eqb i j ≡ true → lookup i m ≡ lookup j m
  lookup_congr i j m h = cc ((eqb_iff i j).0 h)

  pub lookup-put :
      (i j : Text) (v : V) (m : List (Text × V))
      → lookup i (put j v m) ≡ (if eqb i j then some v else lookup i m)
  unfolding lookup put
  lookup-put i j v [] = refl
  lookup-put i j v ((k, w) ∷ m) =
      ground (arith, lookup-put i j v m, eqb_iff i j, eqb_iff j k, eqb_iff i k)

  pub lookup-remove :
      (i j : Text) (m : List (Text × V))
      → lookup i (remove j m) ≡ (if eqb i j then none else lookup i m)
  unfolding lookup remove
  lookup-remove i j [] = ground arith
  lookup-remove i j ((k, w) ∷ m) =
      ground (arith, lookup-remove i j m, eqb_iff i j, eqb_iff j k, eqb_iff i k)
