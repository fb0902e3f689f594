-- ===== src/Proxy/Devices/Ports.antt =====
-- The port that connect_device picks from the range.
use ios_webkit_debug_proxy_r.Base.{
  ℕ, zero, suc, ◌+◌, ◌≤◌, ◌<◌, ◌≡◌, subst, true, false, Option, none, some, List, arith, nat_eq,
  Bool-cases, ltb, inl, inr,
}
use ios_webkit_debug_proxy_r.Base.Dict
use ios_webkit_debug_proxy_r.Proxy.Devices.{first_free}

-- All ports from p up to before q are used.
abbrev pub AllUsed : List ℕ → ℕ → ℕ → Type 0
AllUsed used p q = (k : ℕ) → p ≤ k → k < q → Dict.contains used k ≡ true

-- The least port from p on that is not used, if it is before e; none if all are used.
abbrev pub IsFirstFree : List ℕ → ℕ → ℕ → Option ℕ → Type 0
IsFirstFree used p e none = AllUsed used p e
IsFirstFree used p e (some q) =
    (p ≤ q) × (q < e) × (Dict.contains used q ≡ false) × AllUsed used p q

AllUsed-suc :
    (used : List ℕ) (p q : ℕ)
    → Dict.contains used p ≡ true
    → AllUsed used (suc p) q
    → AllUsed used p q
AllUsed-suc used p q here above k low high = elim (Bool-cases (ltb p k)) [
  | inl later ↦ above k (ground arith) high
  | inr first ↦
      let same : p ≡ k = ground arith in subst (λ x. Dict.contains used x ≡ true) same here
]

IsFirstFree-suc :
    (used : List ℕ) (p e : ℕ) (o : Option ℕ)
    → Dict.contains used p ≡ true
    → IsFirstFree used (suc p) e o
    → IsFirstFree used p e o
IsFirstFree-suc used p e none here first = AllUsed-suc used p e here first
IsFirstFree-suc used p e (some q) here (low, high, free, above) =
    (omega arith, high, free, AllUsed-suc used p q here above)

-- The search over a range takes its first port that no device uses, and fails only if all are
-- used.
pub first_free_lem :
    (count p : ℕ) (used : List ℕ) → IsFirstFree used p (p + count) (first_free count p used)
unfolding first_free
first_free_lem zero p used = λ k low high. absurd (omega arith)
first_free_lem (suc count) p used = elim (Bool-cases (Dict.contains used p)) [
  | inl held ↦
      let moved : suc p + count ≡ p + suc count = omega arith in
      rw held (
        IsFirstFree-suc used p (p + suc count) (first_free count (suc p) used) held (
          subst (λ e. IsFirstFree used (suc p) e (first_free count (suc p) used)) moved
            (first_free_lem count (suc p) used)))
  | inr free ↦ rw free (omega arith, omega arith, free, λ k low high. absurd (omega arith))
]
