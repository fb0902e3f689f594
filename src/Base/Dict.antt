-- ===== src/Base/Dict.antt =====
-- `std::collections::HashMap`: an association list in the map's order of iteration, which the
-- standard library leaves open. `IsUniq` says that no key stands twice.
pub mod Laws
use mathlib.Core.Path.{◌≡◌}
use mathlib.Core.Bool.{Bool, true, false}
use mathlib.Core.Option.{Option, none, some}
use mathlib.Core.List.{List, [], ◌∷◌}
use ios_webkit_debug_proxy_r.Base.Tests.{PartialEq, ◌==◌, if◌then◌else◌}

abbrev pub HashMap {ℓ κ} : Type ℓ → Type κ → Type (ℓ ⊔ κ)
HashMap K V = List (K × V)

module _ {ℓ κ} {K : Type ℓ} {V : Type κ} where
  abbrev pub keys : HashMap K V → List K
  keys [] = []
  keys ((k, v) ∷ m) = k ∷ keys m

  abbrev pub values : HashMap K V → List V
  values [] = []
  values ((k, v) ∷ m) = v ∷ values m

  -- A write through `values_mut().find(p)`: the first value that passes, if any.
  unfoldable pub modify_first : HashMap K V → (V → Bool) → (V → V) → HashMap K V
  modify_first [] p f = []
  modify_first ((j, w) ∷ m) p f = if p w then (j, f w) ∷ m else (j, w) ∷ modify_first m p f

module _ {ℓ κ} {K : Type ℓ} {V : Type κ} ⦃e : PartialEq K⦄ where
  unfoldable pub get : HashMap K V → K → Option V
  get [] k = none
  get ((j, v) ∷ m) k = if j == k then some v else get m k

  unfoldable pub insert : HashMap K V → K → V → HashMap K V
  insert [] k v = (k, v) ∷ []
  insert ((j, w) ∷ m) k v = if j == k then (k, v) ∷ m else (j, w) ∷ insert m k v

  unfoldable pub remove : HashMap K V → K → HashMap K V
  remove [] k = []
  remove ((j, w) ∷ m) k = let rest = remove m k in if j == k then rest else (j, w) ∷ rest

  -- A write through `get_mut(k)`.
  unfoldable pub modify : HashMap K V → K → (V → V) → HashMap K V
  modify [] k f = []
  modify ((j, w) ∷ m) k f = if j == k then (j, f w) ∷ m else (j, w) ∷ modify m k f

  unfoldable pub contains_key : HashMap K V → K → Bool
  contains_key [] k = false
  contains_key ((j, w) ∷ m) k = if j == k then true else contains_key m k

  -- `for k in ks { m.remove(&k); }`
  unfoldable pub remove_all : HashMap K V → List K → HashMap K V
  remove_all m [] = m
  remove_all m (k ∷ ks) = remove_all (remove m k) ks

  abbrev pub IsUniq : HashMap K V → Type κ
  IsUniq [] = Unit
  IsUniq ((j, w) ∷ m) = (get m j ≡ none) × IsUniq m

module _ {ℓ} {K : Type ℓ} ⦃e : PartialEq K⦄ where
  unfoldable pub contains : List K → K → Bool
  contains [] k = false
  contains (j ∷ ks) k = if j == k then true else contains ks k
