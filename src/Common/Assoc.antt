-- ===== src/Common/Assoc.antt =====
-- A Go map as an association list: `lookup` for reading, `assign` for `m[k] = v`, `delete`.
-- A key stands once in the list of a map that the program builds (`Distinct`).
use Prim.Native.Nat.{suc, ◌≤◌, ◌<◌}
use mathlib.Core.List.{List, [], ◌∷◌}
use mathlib.Core.Logic.{◌≢◌, ite}
use mathlib.Core.Option.{Option, none, some}
use mathlib.Core.Path.{◌≡◌, refl}
use native.Mathlib.Omega.{arith}
use looking_glass.Common.Lists.{length}

module _ {ℓ} {K V : Type ℓ} (dec : Discrete K) where
  unfoldable pub lookup : K → List (K × V) → Option V
  lookup k [] = none
  lookup k (e ∷ m) = ite (dec e.0 k) (some e.1) (lookup k m)

  unfoldable pub assign : K → V → List (K × V) → List (K × V)
  assign k v [] = (k, v) ∷ []
  assign k v (e ∷ m) = ite (dec e.0 k) ((k, v) ∷ m) (e ∷ assign k v m)

  unfoldable pub delete : K → List (K × V) → List (K × V)
  delete k [] = []
  delete k (e ∷ m) = ite (dec e.0 k) (delete k m) (e ∷ delete k m)

  abbrev pub Distinct : List (K × V) → Type ℓ
  Distinct [] = Unit
  Distinct (e ∷ m) = (lookup e.0 m ≡ none) × Distinct m

  pub lookup-assign :
      (j k : K) (v : V) (m : List (K × V))
      → lookup j (assign k v m) ≡ ite (dec k j) (some v) (lookup j m)
  unfolding lookup assign
  lookup-assign j k v [] = refl
  lookup-assign j k v (e ∷ m) = ground (arith, lookup-assign j k v m)

  pub lookup-assign_self : (k : K) (v : V) (m : List (K × V)) → lookup k (assign k v m) ≡ some v
  lookup-assign_self k v m = ground (arith, lookup-assign k k v m)

  pub lookup-assign_ne :
      (j k : K) (v : V) (m : List (K × V)) → j ≢ k → lookup j (assign k v m) ≡ lookup j m
  lookup-assign_ne j k v m h = ground (arith, lookup-assign j k v m)

  pub lookup-delete :
      (j k : K) (m : List (K × V)) → lookup j (delete k m) ≡ ite (dec k j) none (lookup j m)
  unfolding lookup delete
  lookup-delete j k [] = ground arith
  lookup-delete j k (e ∷ m) = ground (arith, lookup-delete j k m)

  pub assign-Distinct : (k : K) (v : V) (m : List (K × V)) → Distinct m → Distinct (assign k v m)
  unfolding lookup assign
  assign-Distinct k v [] h = ground arith
  assign-Distinct k v (e ∷ m) h = ground (arith, assign-Distinct k v m h.1, lookup-assign e.0 k v m)

  pub delete-Distinct : (k : K) (m : List (K × V)) → Distinct m → Distinct (delete k m)
  unfolding lookup delete
  delete-Distinct k [] h = ground arith
  delete-Distinct k (e ∷ m) h = ground (arith, delete-Distinct k m h.1, lookup-delete e.0 k m)

  pub length-assign-le : (k : K) (v : V) (m : List (K × V)) → length (assign k v m) ≤ suc (length m)
  unfolding assign
  length-assign-le k v [] = omega arith
  length-assign-le k v (e ∷ m) = ground (arith, length-assign-le k v m)

  pub length-delete-le : (k : K) (m : List (K × V)) → length (delete k m) ≤ length m
  unfolding delete
  length-delete-le k [] = omega arith
  length-delete-le k (e ∷ m) = ground (arith, length-delete-le k m)

  pub length-delete-lt :
      (k : K) {v : V} (m : List (K × V)) → lookup k m ≡ some v → length (delete k m) < length m
  unfolding lookup delete
  length-delete-lt k {v} [] h = cc
  length-delete-lt k {v} (e ∷ m) h =
      ground (arith, length-delete-lt k {v = v} m, length-delete-le k m)
