-- ===== src/Base/Decimal/Digits.antt =====
-- A number's text is parsed as the number.
use mathlib.Core.Option
use Prim.Native.Nat.{ℕ, zero, suc, ◌+◌, ◌-◌, ◌*◌, ◌/◌, ◌%◌, ◌^◌, ◌≤◌, ◌<◌}
use mathlib.Core.Path.{◌≡◌, refl, ap, ◌∙◌}
use mathlib.Core.Logic.{inl, inr}
use mathlib.Core.Bool.{true, false, ◌&&◌}
use mathlib.Core.Option.{Option, none, some, none-ne-some, some-injective}
use mathlib.Core.List.{[], ◌∷◌, ◌++◌}
use native.Mathlib.Omega.{arith}
use ios_webkit_debug_proxy_r.Base.Tests.{Bool-cases, ltb, leb}
use ios_webkit_debug_proxy_r.Base.Lists.{Bytes, ascii, ascii-concat}
use ios_webkit_debug_proxy_r.Base.Int.{digits_value, number_of, parse_u32}
use ios_webkit_debug_proxy_r.Base.Decimal.{digit, digits_loop, to_string}

ascii-digit : (n : ℕ) → n < 10 → ascii (digit n) ≡ (b'0' + n) ∷ []
unfolding digit
ascii-digit zero h = refl
ascii-digit (suc zero) h = refl
ascii-digit (suc (suc zero)) h = refl
ascii-digit (suc (suc (suc zero))) h = refl
ascii-digit (suc (suc (suc (suc zero)))) h = refl
ascii-digit (suc (suc (suc (suc (suc zero))))) h = refl
ascii-digit (suc (suc (suc (suc (suc (suc zero)))))) h = refl
ascii-digit (suc (suc (suc (suc (suc (suc (suc zero))))))) h = refl
ascii-digit (suc (suc (suc (suc (suc (suc (suc (suc zero)))))))) h = refl
ascii-digit (suc (suc (suc (suc (suc (suc (suc (suc (suc zero))))))))) h = refl
ascii-digit (suc (suc (suc (suc (suc (suc (suc (suc (suc (suc n)))))))))) h = absurd (omega arith)

digits_value-snoc :
    (acc m d : ℕ) (xs : Bytes)
    → d < 10
    → digits_value acc xs ≡ some m
    → digits_value acc (xs ++ (b'0' + d) ∷ []) ≡ some (m * 10 + d)
unfolding digits_value
digits_value-snoc acc m d [] small h =
    let same : acc ≡ m = some-injective acc m h in ground (arith, same, small)
digits_value-snoc acc m d (c ∷ xs) small h =
    ground (arith, digits_value-snoc (acc * 10 + (c - b'0')) m d xs, small)

number_of-snoc :
    (m d : ℕ) (xs : Bytes)
    → d < 10
    → number_of xs ≡ some m
    → number_of (xs ++ (b'0' + d) ∷ []) ≡ some (m * 10 + d)
unfolding number_of
number_of-snoc m d [] small h = absurd (none-ne-some m h)
number_of-snoc m d (c ∷ xs) small h = digits_value-snoc 0 m d (c ∷ xs) small h

number_of-digit : (n : ℕ) → n < 10 → number_of (ascii (digit n)) ≡ some n
unfolding number_of digits_value
number_of-digit n small = rw (ascii-digit n small) (ground (arith, small))

number_of-digits_loop :
    (fuel n : ℕ) → n ≤ fuel → number_of (ascii (digits_loop (suc fuel) n)) ≡ some n
unfolding digits_loop
number_of-digits_loop zero n h =
    let small : ltb n 10 ≡ true = ground (arith, h) in
    rw small (number_of-digit n (omega (arith, h)))
number_of-digits_loop (suc fuel) n h = elim (Bool-cases (ltb n 10)) [
  | inl small ↦ rw small (number_of-digit n (ground (arith, small)))
  | inr large ↦
      let less : n / 10 ≤ fuel = ground (arith, large, h) in
      let last : n % 10 < 10 = omega arith in
      let whole : n / 10 * 10 + n % 10 ≡ n = omega arith in
      rw
        (
          large,
          ascii-concat (digits_loop (suc fuel) (n / 10)) (digit (n % 10)),
          ascii-digit (n % 10) last,
        )
        (number_of-snoc (n / 10) (n % 10) _ last (number_of-digits_loop fuel (n / 10) less)
          ∙ ap some whole)
]

pub number_of-to_string : (n : ℕ) → number_of (ascii (to_string n)) ≡ some n
unfolding to_string
number_of-to_string n = number_of-digits_loop n n (omega arith)

number_of-first : (c : ℕ) (xs : Bytes) (n : ℕ) → number_of (c ∷ xs) ≡ some n → leb b'0' c ≡ true
unfolding number_of digits_value
number_of-first c xs n h = ground arith

-- The text of a 32-bit number is read back.
pub parse_u32-to_string : (n : ℕ) → n < 2 ^ 32 → parse_u32 (ascii (to_string n)) ≡ some n
unfolding parse_u32 number_of Option.bind
parse_u32-to_string n fits = go (ascii (to_string n)) (number_of-to_string n)
  where
    go : (xs : Bytes) → number_of xs ≡ some n → parse_u32 xs ≡ some n
    go [] h = h
    go (c ∷ xs) h =
        let digit' : leb b'0' c ≡ true = number_of-first c xs n h in
        let no_sign : (leb c b'+' && leb b'+' c) ≡ false = ground (arith, digit') in
        let fit : ltb n (2 ^ 32) ≡ true = ground (arith, fits) in rw (no_sign, h, fit)
