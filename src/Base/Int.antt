-- ===== src/Base/Int.antt =====
-- Signed integers over the native numbers, with their order as a test, and `i32::from_str`.
use Prim.Native.Nat.{ℕ, zero, suc, ◌+◌, ◌-◌, ◌*◌, ◌^◌}
use mathlib.Core.Bool.{Bool, true, false, ◌&&◌}
use mathlib.Core.Option
use mathlib.Core.Option.{Option, none, some}
use mathlib.Core.List.{[], ◌∷◌}
use ios_webkit_debug_proxy_r.Base.Tests.{ltb, leb, if◌then◌else◌}
use ios_webkit_debug_proxy_r.Base.Lists.{Bytes}

-- `negsuc n` is -(n + 1).
pub data ℤ : Type 0 where
  pos : ℕ → ℤ
  negsuc : ℕ → ℤ

abbrev pub ltb_ℤ : ℤ → ℤ → Bool
ltb_ℤ (negsuc m) (negsuc n) = ltb n m
ltb_ℤ (negsuc m) (pos n) = true
ltb_ℤ (pos m) (negsuc n) = false
ltb_ℤ (pos m) (pos n) = ltb m n

abbrev pub leb_ℤ : ℤ → ℤ → Bool
leb_ℤ (negsuc m) (negsuc n) = leb n m
leb_ℤ (negsuc m) (pos n) = true
leb_ℤ (pos m) (negsuc n) = false
leb_ℤ (pos m) (pos n) = leb m n

-- The value of ASCII digits behind those read before; `none` at any other byte.
unfoldable pub digits_value : ℕ → Bytes → Option ℕ
digits_value acc [] = some acc
digits_value acc (c ∷ rest) =
    let value : Option ℕ = digits_value (acc * 10 + (c - b'0')) rest in
    if leb b'0' c && leb c b'9' then value else none

-- At least one digit.
unfoldable pub number_of : Bytes → Option ℕ
number_of [] = none
number_of (c ∷ rest) = digits_value 0 (c ∷ rest)

abbrev negate : ℕ → ℤ
negate zero = pos 0
negate (suc n) = negsuc n

abbrev in_range : Bool → ℤ → Option ℤ
in_range true i = some i
in_range false i = none

abbrev to_i32 : ℕ → Option ℤ
to_i32 n = in_range (ltb n (2 ^ 31)) (pos n)

abbrev to_negative_i32 : ℕ → Option ℤ
to_negative_i32 n = in_range (leb n (2 ^ 31)) (negate n)

-- `str::parse::<i32>`: a sign or none, digits, and a value that fits.
unfoldable pub parse_i32 : Bytes → Option ℤ
parse_i32 [] = none
parse_i32 (c ∷ rest) =
    if leb c b'-' && leb b'-' c
    then Option.bind (number_of rest) to_negative_i32
    else if leb c b'+' && leb b'+' c
    then Option.bind (number_of rest) to_i32
    else Option.bind (number_of (c ∷ rest)) to_i32

-- `str::parse::<u32>`
abbrev to_u32 : ℕ → Option ℕ
to_u32 n = if ltb n (2 ^ 32) then some n else none

unfoldable pub parse_u32 : Bytes → Option ℕ
parse_u32 [] = none
parse_u32 (c ∷ rest) =
    if leb c b'+' && leb b'+' c
    then Option.bind (number_of rest) to_u32
    else Option.bind (number_of (c ∷ rest)) to_u32
