-- ===== src/Common/Maps.antt =====
-- JavaScript `Map`, `Set` and records with computed keys: entries in order of insertion.
use mathlib.Core.Path.{◌≡◌, refl}
use mathlib.Core.Logic.{inl, inr}
use mathlib.Core.Bool.{Bool, false, ◌||◌}
use mathlib.Core.Option.{Option, none, some}
use mathlib.Core.List.{List, [], ◌∷◌, ◌++◌}
use native.Mathlib.Omega.{arith}
use strangertv.Common.Tests.{Key, ◌==◌, if◌then◌else◌, Bool-cases}

module _ {ℓ κ} {K : Type ℓ} {V : Type κ} ⦃e : Key K⦄ where
  -- `map.get(k)`
  unfoldable pub get : K → List (K × V) → Option V
  get k [] = none
  get k ((j, w) ∷ m) = if j == k then some w else get k m

  -- `map.set(k, v)`: an existing key keeps its place.
  unfoldable pub put : K → V → List (K × V) → List (K × V)
  put k v [] = (k, v) ∷ []
  put k v ((i, old) ∷ rest) = if i == k then (k, v) ∷ rest else (i, old) ∷ put k v rest

  -- `map.delete(k)`
  unfoldable pub remove : K → List (K × V) → List (K × V)
  remove k [] = []
  remove k ((j, w) ∷ m) = if j == k then remove k m else (j, w) ∷ remove k m

  pub get-put :
      (k j : K) (v : V) (m : List (K × V))
      → get j (put k v m) ≡ (if k == j then some v else get j m)
  unfolding get put
  get-put k j v [] = refl
  get-put k j v ((i, w) ∷ m) =
      ground (arith, e.same_iff k j, e.same_iff i k, e.same_iff i j, get-put k j v m)

  pub get-remove :
      (k j : K) (m : List (K × V)) → get j (remove k m) ≡ (if k == j then none else get j m)
  unfolding get remove
  get-remove k j [] = ground arith
  get-remove k j ((i, w) ∷ m) =
      ground (arith, e.same_iff k j, e.same_iff i k, e.same_iff i j, get-remove k j m)

module _ {ℓ} {K : Type ℓ} ⦃e : Key K⦄ where
  -- `set.has(k)`
  unfoldable pub has : K → List K → Bool
  has k [] = false
  has k (j ∷ s) = j == k || has k s

  -- `set.add(k)`
  unfoldable pub add : K → List K → List K
  unfolding has
  add k s = if has k s then s else s ++ k ∷ []

  -- `set.delete(k)`
  unfoldable pub discard : K → List K → List K
  discard k [] = []
  discard k (j ∷ s) = if j == k then discard k s else j ∷ discard k s

  has-concat : (k j : K) (s : List K) → has j (s ++ k ∷ []) ≡ (has j s || k == j)
  unfolding has
  has-concat k j [] = ground arith
  has-concat k j (i ∷ s) = ground (arith, has-concat k j s)

  pub has-add : (k j : K) (s : List K) → has j (add k s) ≡ (k == j || has j s)
  unfolding add
  has-add k j s = elim (Bool-cases (has k s)) [
    | inl old ↦ rw old (ground (arith, e.same_iff k j))
    | inr new ↦ rw new (ground (arith, has-concat k j s))
  ]

  pub has-discard :
      (k j : K) (s : List K) → has j (discard k s) ≡ (if k == j then false else has j s)
  unfolding has discard
  has-discard k j [] = ground arith
  has-discard k j (i ∷ s) =
      ground (arith, e.same_iff k j, e.same_iff i k, e.same_iff i j, has-discard k j s)
