-- ===== src/Plist/Sample/Chars.antt =====
-- Texts as lists of numbers that end in zero, and back.
use Prim.Native.Char.{Char, char, code, nul, IsScalar, IsLt}
use Prim.Native.Nat.{compare, Ordering}
use text.Mathlib.TextEquality.{Char-path}
use ios_webkit_debug_proxy_r.Base.{
  ℕ, zero, suc, ◌+◌, arith, length, String, ◌≡◌, refl, ap, ◌∙◌, Option, none, some, [], ◌∷◌, Bytes,
}

abbrev Both : Ordering → Ordering → Type 0
Both Ordering.lt o = IsLt o
Both Ordering.eq _ = ⊥
Both Ordering.gt _ = ⊥

abbrev Scalar : Ordering → Ordering → Ordering → Type 0
Scalar Ordering.lt _ _ = Unit
Scalar Ordering.eq o p = Both o p
Scalar Ordering.gt o p = Both o p

dec_lt : (o : Ordering) → Dec (IsLt o)
dec_lt Ordering.lt = yes tt
dec_lt Ordering.eq = no (λ h. h)
dec_lt Ordering.gt = no (λ h. h)

dec_both : (o p : Ordering) → Dec (Both o p)
unfolding dec_lt
dec_both Ordering.lt p = dec_lt p
dec_both Ordering.eq _ = no (λ h. h)
dec_both Ordering.gt _ = no (λ h. h)

dec_scalar : (o p q : Ordering) → Dec (Scalar o p q)
unfolding dec_both
dec_scalar Ordering.lt _ _ = yes tt
dec_scalar Ordering.eq p q = dec_both p q
dec_scalar Ordering.gt p q = dec_both p q

to_char : (n : ℕ) → Dec (IsScalar n) → Char
to_char n (yes h) = char n h
to_char n (no _) = nul

unfoldable char_of : ℕ → Char
unfolding to_char dec_scalar
char_of n = to_char n (dec_scalar (compare n 55296) (compare 57343 n) (compare n 1114112))

to_char-code : (n : ℕ) (h : IsScalar n) (d : Dec (IsScalar n)) → code (to_char n d) ≡ n
unfolding to_char
to_char-code n h (yes _) = refl
to_char-code n h (no k) = absurd (k h)

char_of-code : (c : Char) → char_of (code c) ≡ c
unfolding char_of
char_of-code (char n h) = Char-path _ _ (to_char-code n h _)

abbrev pub print_text : String → Bytes → Bytes
print_text String.[] rest = 0 ∷ rest
print_text (String.◌∷◌ c s) rest = suc (code c) ∷ print_text s rest

cons_char : ℕ → Option (String × Bytes) → Option (String × Bytes)
unfolding char_of
cons_char n none = none
cons_char n (some (s, rest)) = some (String.◌∷◌ (char_of n) s, rest)

unfoldable pub parse_text : Bytes → Option (String × Bytes)
unfolding cons_char
parse_text [] = none
parse_text (zero ∷ bytes) = some (String.[], bytes)
parse_text (suc n ∷ bytes) = cons_char n (parse_text bytes)

pub parse_text-print_text :
    (s : String) (rest : Bytes) → parse_text (print_text s rest) ≡ some (s, rest)
unfolding parse_text
parse_text-print_text String.[] rest = refl
parse_text-print_text (String.◌∷◌ c s) rest =
    ap (cons_char (code c)) (parse_text-print_text s rest)
    ∙ ap (λ d. some (String.◌∷◌ d s, rest)) (char_of-code c)

abbrev pub print_blob : Bytes → Bytes → Bytes
print_blob [] rest = 0 ∷ rest
print_blob (b ∷ bytes) rest = suc b ∷ print_blob bytes rest

cons_byte : ℕ → Option (Bytes × Bytes) → Option (Bytes × Bytes)
cons_byte b none = none
cons_byte b (some (bytes, rest)) = some (b ∷ bytes, rest)

unfoldable pub parse_blob : Bytes → Option (Bytes × Bytes)
unfolding cons_byte
parse_blob [] = none
parse_blob (zero ∷ bytes) = some ([], bytes)
parse_blob (suc n ∷ bytes) = cons_byte n (parse_blob bytes)

pub parse_blob-print_blob : (b rest : Bytes) → parse_blob (print_blob b rest) ≡ some (b, rest)
unfolding parse_blob
parse_blob-print_blob [] rest = refl
parse_blob-print_blob (b ∷ bytes) rest = ap (cons_byte b) (parse_blob-print_blob bytes rest)

pub length-print_blob : (b rest : Bytes) → length (print_blob b rest) ≡ length b + 1 + length rest
length-print_blob [] rest = omega arith
length-print_blob (a ∷ b) rest = omega (arith, length-print_blob b rest)
