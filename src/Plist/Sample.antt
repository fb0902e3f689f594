-- ===== src/Plist/Sample.antt =====
-- A value of the `Plist` interface, for the examples: trees written in prefix order, under a first
-- number that bounds their size. It is no part of the program.
pub mod Chars
use mathlib.Core.Path.{ap₂}
use ios_webkit_debug_proxy_r.Base.{
  ℕ, zero, suc, ◌+◌, ◌≤◌, String, ◌≡◌, refl, ap, ◌∙◌, Bool, true, false, Option, none, some, List,
  [], ◌∷◌, arith, ◌==◌, string_eq, str_eq_iff, if◌then◌else◌, Bytes,
}
use ios_webkit_debug_proxy_r.Error.{ResultOf, ok, err}
use ios_webkit_debug_proxy_r.Plist.{Plist, Laws}
use Chars.{
  print_text, parse_text, parse_text-print_text, print_blob, parse_blob, parse_blob-print_blob,
}

mutual
  pub data Node : Type 0 where
    text : String → Node
    blob : Bytes → Node
    number : ℕ → Node
    flag : Bool → Node
    dict : Fields → Node

  pub data Fields : Type 0 where
    end : Fields
    entry : String → Node → Fields → Fields

abbrev mutual
  size : Node → ℕ
  size (text s) = 1
  size (blob b) = 1
  size (number n) = 1
  size (flag b) = 1
  size (dict fs) = suc (size_fields fs)

  size_fields : Fields → ℕ
  size_fields end = 1
  size_fields (entry k v fs) = suc (size v + size_fields fs)

abbrev mutual
  print : Node → Bytes → Bytes
  print (text s) rest = 0 ∷ print_text s rest
  print (blob b) rest = 1 ∷ print_blob b rest
  print (number n) rest = 2 ∷ n ∷ rest
  print (flag true) rest = 3 ∷ 1 ∷ rest
  print (flag false) rest = 3 ∷ 0 ∷ rest
  print (dict fs) rest = 4 ∷ print_fields fs rest

  print_fields : Fields → Bytes → Bytes
  print_fields end rest = 0 ∷ rest
  print_fields (entry k v fs) rest = 1 ∷ print_text k (print v (print_fields fs rest))

abbrev with_first {ℓ κ} :
    {A : Type ℓ} {B : Type κ} → (A → B) → Option (A × Bytes) → Option (B × Bytes)
with_first f none = none
with_first f (some (a, rest)) = some (f a, rest)

abbrev and_then {ℓ κ} :
    {A : Type ℓ} {B : Type κ}
    → Option (A × Bytes)
    → (A → Bytes → Option (B × Bytes))
    → Option (B × Bytes)
and_then none f = none
and_then (some (a, rest)) f = f a rest

mutual
  parse : ℕ → Bytes → Option (Node × Bytes)
  parse zero bytes = none
  parse (suc fuel) [] = none
  parse (suc fuel) (zero ∷ bytes) = with_first text (parse_text bytes)
  parse (suc fuel) (suc zero ∷ bytes) = with_first blob (parse_blob bytes)
  parse (suc fuel) (suc (suc zero) ∷ []) = none
  parse (suc fuel) (suc (suc zero) ∷ n ∷ bytes) = some (number n, bytes)
  parse (suc fuel) (suc (suc (suc zero)) ∷ []) = none
  parse (suc fuel) (suc (suc (suc zero)) ∷ zero ∷ bytes) = some (flag false, bytes)
  parse (suc fuel) (suc (suc (suc zero)) ∷ suc n ∷ bytes) = some (flag true, bytes)
  parse (suc fuel) (suc (suc (suc (suc n))) ∷ bytes) =
      let fields : Option (Fields × Bytes) = parse_fields fuel bytes in with_first dict fields

  parse_fields : ℕ → Bytes → Option (Fields × Bytes)
  parse_fields zero bytes = none
  parse_fields (suc fuel) [] = none
  parse_fields (suc fuel) (zero ∷ bytes) = some (end, bytes)
  parse_fields (suc fuel) (suc n ∷ bytes) =
      and_then (parse_text bytes) λ k rest.
        and_then (parse fuel rest) λ v more. with_first (entry k v) (parse_fields fuel more)

mutual
  unfolding parse parse_fields

  parse-print :
      (v : Node) (fuel : ℕ) (rest : Bytes)
      → size v ≤ fuel
      → parse fuel (print v rest) ≡ some (v, rest)
  parse-print (text s) (suc fuel) rest h = ap (with_first text) (parse_text-print_text s rest)
  parse-print (blob b) (suc fuel) rest h = ap (with_first blob) (parse_blob-print_blob b rest)
  parse-print (number n) (suc fuel) rest h = refl
  parse-print (flag true) (suc fuel) rest h = refl
  parse-print (flag false) (suc fuel) rest h = refl
  parse-print (dict fs) (suc fuel) rest h =
      ap (with_first dict) (parse_fields-print fs fuel rest (omega arith))
  parse-print (text s) zero rest h = absurd (omega arith)
  parse-print (blob b) zero rest h = absurd (omega arith)
  parse-print (number n) zero rest h = absurd (omega arith)
  parse-print (flag b) zero rest h = absurd (omega arith)
  parse-print (dict fs) zero rest h = absurd (omega arith)

  parse_fields-print :
      (fs : Fields) (fuel : ℕ) (rest : Bytes)
      → size_fields fs ≤ fuel
      → parse_fields fuel (print_fields fs rest) ≡ some (fs, rest)
  parse_fields-print end zero rest h = absurd (omega arith)
  parse_fields-print end (suc fuel) rest h = refl
  parse_fields-print (entry k v fs) zero rest h = absurd (omega arith)
  parse_fields-print (entry k v fs) (suc fuel) rest h =
      rw (parse_text-print_text k (print v (print_fields fs rest))) (
        rw (parse-print v fuel (print_fields fs rest) (omega arith))
          (rw (parse_fields-print fs fuel rest (omega arith))))

-- `Dictionary::get` and `Dictionary::insert`.
unfoldable pub lookup : Fields → String → Option Node
lookup end j = none
lookup (entry k v fs) j = if k == j then some v else lookup fs j

unfoldable pub update : Fields → String → Node → Fields
update end k v = entry k v end
update (entry i w fs) k v = if i == k then entry k v fs else entry i w (update fs k v)

lookup-update :
    (fs : Fields) (k j : String) (v : Node)
    → lookup (update fs k v) j ≡ (if k == j then some v else lookup fs j)
unfolding lookup update
lookup-update end k j v = refl
lookup-update (entry i w fs) k j v =
    ground (arith, str_eq_iff k j, str_eq_iff i k, str_eq_iff i j, lookup-update fs k j v)

unfoldable pub entries : Fields → List (String × Node)
entries end = []
entries (entry k v fs) = (k, v) ∷ entries fs

abbrev as_text : Node → Option String
as_text (text s) = some s
as_text _ = none

abbrev as_blob : Node → Option Bytes
as_blob (blob b) = some b
as_blob _ = none

abbrev as_number : Node → Option ℕ
as_number (number n) = some n
as_number _ = none

abbrev as_flag : Node → Option Bool
as_flag (flag b) = some b
as_flag _ = none

abbrev as_dict : Node → Option Fields
as_dict (dict fs) = some fs
as_dict _ = none

abbrev finish : Option (Node × Bytes) → ResultOf String Node
finish (some (v, [])) = ok v
finish (some (v, b ∷ rest)) = err "bytes behind the value"
finish none = err "no value"

-- The size stands first, under a number that makes the text long enough for any packet.
unfoldable pub decode : Bytes → ResultOf String Node
unfolding parse
decode [] = err "no bytes"
decode (fuel ∷ bytes) = finish (parse fuel bytes)

decode-print : (v : Node) → decode (size v ∷ print v []) ≡ ok v
unfolding decode
decode-print v = ap finish (parse-print v (size v) [] (omega arith))

-- The interface by these trees.
abbrev pub sample : Plist
sample = record {
  Value = Node;
  Dictionary = Fields;
  string = text;
  of_data = blob;
  integer = number;
  boolean = flag;
  dictionary = dict;
  as_string = as_text;
  as_data = as_blob;
  as_unsigned_integer = as_number;
  as_boolean = as_flag;
  as_dictionary = as_dict;
  new = end;
  insert = update;
  get = lookup;
  iter = entries;
  from_bytes = decode;
  to_writer_binary = λ v. size v ∷ print v [];
}

-- It meets the crate's laws.
pub sample-Laws : Laws sample
unfolding lookup update entries decode
sample-Laws = record {
  as_string-string = λ s. refl;
  as_data-of_data = λ b. refl;
  as_unsigned_integer-integer = λ n. refl;
  as_boolean-boolean = λ b. refl;
  as_dictionary-dictionary = λ d. refl;
  get-new = λ k. refl;
  get-insert = lookup-update;
  from_bytes-to_writer_binary = decode-print;
  is_empty-to_writer_binary = λ v. refl;
}
