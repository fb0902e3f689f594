-- ===== src/Base/Dict/Laws.antt =====
-- The laws of the hash map: what a key reads after each operation, uniqueness of the keys, and
-- searches among the values.
use mathlib.Core.Path.{◌≡◌, refl, sym, ap, ◌∙◌}
use mathlib.Core.Bool.{Bool, true, false}
use mathlib.Core.Option
use mathlib.Core.Option.{Option, none, some}
use mathlib.Core.Logic.{inl, inr}
use mathlib.Core.List.{List, [], ◌∷◌}
use native.Mathlib.Omega.{arith}
use ios_webkit_debug_proxy_r.Base.Tests.{PartialEq, ◌==◌, if◌then◌else◌, Bool-cases}
use ios_webkit_debug_proxy_r.Base.Lists.{find}
use ios_webkit_debug_proxy_r.Base.Dict.{
  HashMap, values, get, insert, remove, modify, modify_first, contains_key, remove_all, contains,
  IsUniq,
}

module _ {ℓ κ} {K : Type ℓ} {V : Type κ} ⦃e : PartialEq K⦄ where
  pub get-insert :
      (m : HashMap K V) (k j : K) (v : V)
      → get (insert m k v) j ≡ (if k == j then some v else get m j)
  unfolding get insert
  get-insert [] k j v = refl
  get-insert ((i, w) ∷ m) k j v =
      ground (arith, e.eq_iff k j, e.eq_iff i k, e.eq_iff i j, get-insert m k j v)

  pub get-remove :
      (m : HashMap K V) (k j : K) → get (remove m k) j ≡ (if k == j then none else get m j)
  unfolding get remove
  get-remove [] k j = ground arith
  get-remove ((i, w) ∷ m) k j =
      ground (arith, e.eq_iff k j, e.eq_iff i k, e.eq_iff i j, get-remove m k j)

  pub get-modify :
      (m : HashMap K V) (k j : K) (f : V → V)
      → get (modify m k f) j ≡ (if k == j then Option.map f (get m j) else get m j)
  unfolding get modify
  get-modify [] k j f = ground arith
  get-modify ((i, w) ∷ m) k j f =
      ground (arith, e.eq_iff k j, e.eq_iff i k, e.eq_iff i j, get-modify m k j f)

  pub get-remove_all :
      (m : HashMap K V) (ks : List K) (j : K)
      → get (remove_all m ks) j ≡ (if contains ks j then none else get m j)
  unfolding remove_all contains
  get-remove_all m [] j = refl
  get-remove_all m (k ∷ ks) j = ground (arith, get-remove_all (remove m k) ks j, get-remove m k j)

  pub contains_key-get : (m : HashMap K V) (k : K) → contains_key m k ≡ false → get m k ≡ none
  unfolding contains_key get
  contains_key-get [] k h = refl
  contains_key-get ((i, w) ∷ m) k h = ground (arith, contains_key-get m k)

  pub IsUniq-insert : (m : HashMap K V) (k : K) (v : V) → IsUniq m → IsUniq (insert m k v)
  unfolding get insert
  IsUniq-insert [] k v u = (refl, tt)
  IsUniq-insert ((i, w) ∷ m) k v u =
      ground (arith, e.eq_iff i k, e.eq_iff k i, get-insert m k i v, IsUniq-insert m k v u.1)

  pub IsUniq-remove : (m : HashMap K V) (k : K) → IsUniq m → IsUniq (remove m k)
  unfolding get remove
  IsUniq-remove [] k u = tt
  IsUniq-remove ((i, w) ∷ m) k u =
      ground (arith, e.eq_iff k i, get-remove m k i, IsUniq-remove m k u.1)

  pub IsUniq-modify : (m : HashMap K V) (k : K) (f : V → V) → IsUniq m → IsUniq (modify m k f)
  unfolding get modify
  IsUniq-modify [] k f u = tt
  IsUniq-modify ((i, w) ∷ m) k f u =
      ground (arith, e.eq_iff i k, e.eq_iff k i, get-modify m k i f, IsUniq-modify m k f u.1)

  pub IsUniq-remove_all : (m : HashMap K V) (ks : List K) → IsUniq m → IsUniq (remove_all m ks)
  unfolding remove_all
  IsUniq-remove_all m [] u = u
  IsUniq-remove_all m (k ∷ ks) u = IsUniq-remove_all (remove m k) ks (IsUniq-remove m k u)

  -- What a tail of a map with unique keys reads, the whole reads.
  pub get-tail :
      (j k : K) (w v : V) (m : HashMap K V)
      → IsUniq ((j, w) ∷ m)
      → get m k ≡ some v
      → get ((j, w) ∷ m) k ≡ some v
  unfolding get
  get-tail j k w v m u h = ground (arith, e.eq_iff j k)

  pub get-head : (j : K) (w : V) (m : HashMap K V) → get ((j, w) ∷ m) j ≡ some w
  unfolding get
  get-head j w m = ground (arith, e.eq_iff j j)

  pub find-values :
      (p : V → Bool) (m : HashMap K V) (v : V)
      → IsUniq m
      → find p (values m) ≡ some v
      → (k : K) × (get m k ≡ some v) × (p v ≡ true)
  find-values p [] v u h = absurd (cc)
  find-values p ((j, w) ∷ m) v u h = elim (Bool-cases (p w)) [
    | inl hit ↦
        let same : w ≡ v = ground arith in (j, get-head j w m ∙ ap some same, ap p (sym same) ∙ hit)
    | inr miss ↦
        let (k, found, passes) = find-values p m v u.1 (ground arith) in
        (k, get-tail j k w v m u found, passes)
  ]

  pub find-values-none :
      (p : V → Bool) (m : HashMap K V) (k : K) (v : V)
      → find p (values m) ≡ none
      → get m k ≡ some v
      → p v ≡ false
  unfolding get
  find-values-none p [] k v h g = cc
  find-values-none p ((j, w) ∷ m) k v h g = ground (arith, find-values-none p m k v)

  module _ (p : V → Bool) (n : K) where
    -- `p` tests the key of the value.
    abbrev pub TestsKey : HashMap K V → Type (ℓ ⊔ κ)
    TestsKey m = (k : K) (v : V) → get m k ≡ some v → p v ≡ (k == n)

    TestsKey-tail :
        (j : K) (w : V) (m : HashMap K V) → IsUniq ((j, w) ∷ m) → TestsKey ((j, w) ∷ m) → TestsKey m
    TestsKey-tail j w m u t k v h = t k v (get-tail j k w v m u h)

    pub find-values-eq-get : (m : HashMap K V) → IsUniq m → TestsKey m → find p (values m) ≡ get m n
    unfolding get
    find-values-eq-get [] u t = refl
    find-values-eq-get ((j, w) ∷ m) u t =
        ground (arith, t j w (get-head j w m), find-values-eq-get m u.1 (TestsKey-tail j w m u t))

    pub modify_first-eq-modify :
        (m : HashMap K V) (f : V → V) → IsUniq m → TestsKey m → modify_first m p f ≡ modify m n f
    unfolding modify modify_first
    modify_first-eq-modify [] f u t = refl
    modify_first-eq-modify ((j, w) ∷ m) f u t =
        ground
          (arith, t j w (get-head j w m), modify_first-eq-modify m f u.1 (TestsKey-tail j w m u t))

module _ {ℓ κ} {K : Type ℓ} {V : Type κ} ⦃e : PartialEq K⦄ where
  -- A write through `get_mut` to a key that is there is a write of the new value.
  pub modify-eq-const :
      (m : HashMap K V) (k : K) (f : V → V) (v : V)
      → get m k ≡ some v
      → modify m k f ≡ modify m k (λ _. f v)
  unfolding get modify
  modify-eq-const [] k f v h = refl
  modify-eq-const ((j, w) ∷ m) k f v h = ground (arith, modify-eq-const m k f v)

  pub modify-absent : (m : HashMap K V) (k : K) (f : V → V) → get m k ≡ none → modify m k f ≡ m
  unfolding get modify
  modify-absent [] k f h = refl
  modify-absent ((j, w) ∷ m) k f h = ground (arith, modify-absent m k f)
