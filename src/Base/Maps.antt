-- ===== src/Base/Maps.antt =====
-- Go's maps as association lists with distinct keys, and sets as lists without repetition.
use Prim.Native.String.{String}
use mathlib.Core.Path.{◌≡◌, refl}
use mathlib.Core.Bool.{Bool, true, false, ◌||◌}
use mathlib.Core.Option.{Option, none, some}
use mathlib.Core.List.{List, [], ◌∷◌}
use native.Mathlib.Omega.{arith}
use service_router_operator.Base.Tests.{Comparable, string_eq, ◌==◌, if◌then◌else◌}
use service_router_operator.Base.Lists.{contains}

module _ {ℓ κ} {K : Type ℓ} {V : Type κ} ⦃e : Comparable K⦄ where
  -- `m[k]` with its presence.
  abbrev pub lookup : K → List (K × V) → Option V
  lookup k [] = none
  lookup k ((j, v) ∷ m) = if j == k then some v else lookup k m

  -- `m[k] = v`
  abbrev pub assign : K → V → List (K × V) → List (K × V)
  assign k v [] = (k, v) ∷ []
  assign k v ((j, w) ∷ m) = if j == k then (k, v) ∷ m else (j, w) ∷ assign k v m

  pub lookup-assign :
      (k j : K) (v : V) (m : List (K × V))
      → lookup j (assign k v m) ≡ (if k == j then some v else lookup j m)
  lookup-assign k j v [] = refl
  lookup-assign k j v ((i, w) ∷ m) =
      ground (arith, e.test_iff k j, e.test_iff i k, e.test_iff i j, lookup-assign k j v m)

module _ {ℓ} {K : Type ℓ} ⦃e : Comparable K⦄ where
  -- `set[k] = true`
  abbrev pub add : K → List K → List K
  add k [] = k ∷ []
  add k (j ∷ js) = if j == k then j ∷ js else j ∷ add k js

  pub contains-add : (k j : K) (js : List K) → contains j (add k js) ≡ (k == j || contains j js)
  contains-add k j [] = refl
  contains-add k j (i ∷ js) =
      ground (arith, e.test_iff k j, e.test_iff i k, e.test_iff i j, contains-add k j js)

-- `m[k]` in a map of texts, which is "" where the key is missing.
abbrev pub value_at : String → List (String × String) → String
value_at k m = elim (lookup k m) [ none ↦ "" | some v ↦ v ]

module _ {ℓ} {V : Type ℓ} where
  abbrev pub is_some : Option V → Bool
  is_some none = false
  is_some (some _) = true

  pub none_of-is_some : (o : Option V) → is_some o ≡ false → o ≡ none
  none_of-is_some none h = refl
  none_of-is_some (some v) h = cc
