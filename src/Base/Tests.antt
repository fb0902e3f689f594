-- ===== src/Base/Tests.antt =====
-- Boolean tests on numbers and texts, the conditional, and the case lemmas.
use Prim.Native.Nat.{ℕ, compare, Ordering}
use Prim.Native.String.{String}
use mathlib.Core.Path.{◌≡◌, refl}
use mathlib.Core.Logic.{◌↔◌, ◌⊎◌, inl, inr, ◌≢◌}
use mathlib.Core.Bool.{Bool, true, false, ◌&&◌}
use mathlib.Core.Option.{Option, none, some}
use native.Mathlib.Omega.{arith}
use text.Mathlib.Text.{◌==◌ as text_eq}
use text.Mathlib.TextEquality.{eq_iff as text_eq_iff}

abbrev pub ltb : ℕ → ℕ → Bool
ltb a b = elim (compare a b) [ Ordering.lt ↦ true | _ ↦ false ]

abbrev pub leb : ℕ → ℕ → Bool
leb a b = elim (compare a b) [ Ordering.gt ↦ false | _ ↦ true ]

abbrev pub nat_beq : ℕ → ℕ → Bool
nat_beq a b = elim (compare a b) [ Ordering.eq ↦ true | _ ↦ false ]

infix 1 if◌then◌else◌
abbrev pub if◌then◌else◌ {ℓ} : {A : Type ℓ} → Bool → A → A → A
if true then x else y = x
if false then x else y = y

pub nat_beq_iff : (a b : ℕ) → (nat_beq a b ≡ true) ↔ (a ≡ b)
nat_beq_iff a b = ground arith

-- `PartialEq` for keys and identifiers; `eq` decides equality.
pub record PartialEq {ℓ} (K : Type ℓ) : Type ℓ where
  pub eq : (x y : K) → Bool
  pub eq_iff : (x y : K) → (eq x y ≡ true) ↔ (x ≡ y)

instance abbrev pub string_eq : PartialEq String
string_eq = record { eq = λ s t. text_eq s t; eq_iff = λ s t. text_eq_iff s t }

instance abbrev pub nat_eq : PartialEq ℕ
nat_eq = record { eq = λ m n. nat_beq m n; eq_iff = λ m n. nat_beq_iff m n }

-- The source's `==`.
infix 50 ◌==◌
abbrev pub ◌==◌ {κ} : {K : Type κ} ⦃k : PartialEq K⦄ (x y : K) → Bool
◌==◌ ⦃k⦄ x y = k.eq x y

pub str_eq_iff : (s t : String) → ((s == t) ≡ true) ↔ (s ≡ t)
str_eq_iff = text_eq_iff

pub str_eq_refl : (s : String) → (s == s) ≡ true
str_eq_refl s = (text_eq_iff s s).1 refl

pub Bool-cases : (b : Bool) → (b ≡ true) ⊎ (b ≡ false)
Bool-cases true = inl refl
Bool-cases false = inr refl

pub Option-cases {ℓ} : {A : Type ℓ} (o : Option A) → (o ≡ none) ⊎ ((a : A) × (o ≡ some a))
Option-cases none = inl refl
Option-cases (some a) = inr (a, refl)

pub eq_true_of_ne_false : (b : Bool) → b ≢ false → b ≡ true
eq_true_of_ne_false true h = refl
eq_true_of_ne_false false h = absurd (h refl)

pub and_split : (a b : Bool) → (a && b) ≡ true → (a ≡ true) × (b ≡ true)
and_split a b h = ground arith

-- A property of a result that is read off an optional value.
pub option_rule {ℓ κ μ} :
    {A : Type ℓ} {B : Type κ} (P : B → Type μ) (o : Option A) (b : B) (f : A → B)
    → (o ≡ none → P b)
    → ((a : A) → o ≡ some a → P (f a))
    → P (elim o [ none ↦ b | some a ↦ f a ])
option_rule P none b f absent present = absent refl
option_rule P (some a) b f absent present = present a refl

pub if_rule {κ μ} :
    {B : Type κ} (P : B → Type μ) (t : Bool) (x y : B)
    → (t ≡ true → P x)
    → (t ≡ false → P y)
    → P (if t then x else y)
if_rule P true x y yes' no' = yes' refl
if_rule P false x y yes' no' = no' refl

-- A property of a value, as a type from which the value can be read off.
pub record Holds {ℓ κ} {B : Type ℓ} (P : B → Type κ) (b : B) : Type κ where
  pub holds : P b

abbrev pub hold {ℓ κ} : {B : Type ℓ} {P : B → Type κ} {b : B} → P b → Holds P b
hold h = record { holds = h }
