-- ===== src/Base/Decimal.antt =====
-- The decimal text of a number, as `format!("{}", n)` prints it.
pub mod Digits
use Prim.Native.Nat.{ℕ, zero, suc, ◌/◌, ◌%◌}
use Prim.Native.String.{String, ◌++◌}
use ios_webkit_debug_proxy_r.Base.Tests.{if◌then◌else◌, ltb}

unfoldable digit : ℕ → String
digit zero = "0"
digit (suc zero) = "1"
digit (suc (suc zero)) = "2"
digit (suc (suc (suc zero))) = "3"
digit (suc (suc (suc (suc zero)))) = "4"
digit (suc (suc (suc (suc (suc zero))))) = "5"
digit (suc (suc (suc (suc (suc (suc zero)))))) = "6"
digit (suc (suc (suc (suc (suc (suc (suc zero))))))) = "7"
digit (suc (suc (suc (suc (suc (suc (suc (suc zero)))))))) = "8"
digit _ = "9"

-- The first argument is fuel: a number has fewer digits than its successor.
unfoldable digits_loop : ℕ → ℕ → String
digits_loop zero n = ""
digits_loop (suc fuel) n =
    let high = digits_loop fuel (n / 10) in if ltb n 10 then digit n else high ++ digit (n % 10)

unfoldable pub to_string : ℕ → String
unfolding digits_loop digit
to_string n = digits_loop (suc n) n
