-- ===== src/HttpServer/Texts/Splits.antt =====
-- rsplit_once cuts at the last such character.
use mathlib.Core.Option.{none-ne-some}
use Prim.Native.Char.{Char, code}
use Prim.Native.String.{◌++◌ as concat}
use text.Mathlib.TextLemmas.{nil-append, cons-append}
use ios_webkit_debug_proxy_r.Base.{
  ℕ, String, ◌≡◌, refl, true, false, not, none, some, ◌==◌, nat_eq, arith, and_split, ascii, ◌+◌,
  ◌*◌, ◌-◌,
}
use ios_webkit_debug_proxy_r.Base.Int.{digits_value, number_of}
use ios_webkit_debug_proxy_r.HttpServer.Texts.{all_chars, rsplit_once}

-- The character is not in the text.
abbrev pub Lacks : Char → String → Type 0
Lacks c s = all_chars (λ x. not (x == code c)) s ≡ true

pub rsplit_once-Lacks : (c : Char) (s : String) → Lacks c s → rsplit_once c s ≡ none
unfolding rsplit_once all_chars
rsplit_once-Lacks c String.[] h = refl
rsplit_once-Lacks c (String.◌∷◌ d s) h =
    let (first, rest) =
      and_split (not (code d == code c)) (all_chars (λ x. not (x == code c)) s) h in
    let other : (code d == code c) ≡ false = ground (arith, first) in
    rw (rsplit_once-Lacks c s rest, other)

pub rsplit_once-concat :
    (c : Char) (before behind : String)
    → Lacks c behind
    → rsplit_once c (concat before (String.◌∷◌ c behind)) ≡ some (before, behind)
unfolding rsplit_once
rsplit_once-concat c String.[] behind h =
    let same : (code c == code c) ≡ true = ground arith in
    rw (nil-append (String.◌∷◌ c behind), rsplit_once-Lacks c behind h, same)
rsplit_once-concat c (String.◌∷◌ d before) behind h =
    rw (
      cons-append d before (String.◌∷◌ c behind),
      rsplit_once-concat c before behind h,
      rsplit_once,
    )

-- A text in front goes with what stands before.
pub rsplit_once-behind :
    (c : Char) (t s before behind : String)
    → rsplit_once c s ≡ some (before, behind)
    → rsplit_once c (concat t s) ≡ some (concat t before, behind)
unfolding rsplit_once
rsplit_once-behind c String.[] s before behind h = rw (nil-append s, nil-append before) h
rsplit_once-behind c (String.◌∷◌ d t) s before behind h = rw (
  cons-append d t s,
  rsplit_once-behind c t s before behind h,
  cons-append d t before,
  rsplit_once,
)

-- Digits are no slash.
pub digits_value-Lacks :
    (acc n : ℕ) (s : String) → digits_value acc (ascii s) ≡ some n → Lacks "/" s
unfolding digits_value all_chars
digits_value-Lacks acc n String.[] h = refl
digits_value-Lacks acc n (String.◌∷◌ c s) h =
    ground (arith, digits_value-Lacks (acc * 10 + (code c - b'0')) n s)

pub number_of-Lacks : (n : ℕ) (s : String) → number_of (ascii s) ≡ some n → Lacks "/" s
unfolding number_of
number_of-Lacks n String.[] h = absurd (none-ne-some n h)
number_of-Lacks n (String.◌∷◌ c s) h = digits_value-Lacks 0 n (String.◌∷◌ c s) h
