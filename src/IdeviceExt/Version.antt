-- ===== src/IdeviceExt/Version.antt =====
-- The version that a device gives as a text.
use Prim.Native.Char.{code}
use Prim.Native.String.{◌++◌ as concat}
use text.Mathlib.TextLemmas.{nil-append, cons-append}
use mathlib.Core.Option.{none-ne-some}
use ios_webkit_debug_proxy_r.Base.{
  ℕ, ◌+◌, ◌-◌, ◌*◌, ◌^◌, ◌<◌, String, ◌≡◌, refl, ap, ◌∙◌, true, false, not, some, List, [], ◌∷◌,
  ◌==◌, nat_eq, arith, ascii, and_split,
}
use ios_webkit_debug_proxy_r.Base.Decimal.{to_string}
use ios_webkit_debug_proxy_r.Base.Decimal.Digits.{number_of-to_string, parse_u32-to_string}
use ios_webkit_debug_proxy_r.Base.Int.{digits_value, number_of}
use ios_webkit_debug_proxy_r.Device.{parse_device_os_version, result_os_version}
use ios_webkit_debug_proxy_r.Device.Version.{kept, parse_device_os_version-result_os_version}
use ios_webkit_debug_proxy_r.HttpServer.Texts.{all_chars}
use ios_webkit_debug_proxy_r.IdeviceExt.{split_dots, parse_parts, os_version_of}

abbrev LacksDots : String → Type 0
LacksDots s = all_chars (λ x. not (x == b'.')) s ≡ true

digits_value-LacksDots :
    (acc n : ℕ) (s : String) → digits_value acc (ascii s) ≡ some n → LacksDots s
unfolding digits_value all_chars
digits_value-LacksDots acc n String.[] h = refl
digits_value-LacksDots acc n (String.◌∷◌ c s) h =
    ground (arith, digits_value-LacksDots (acc * 10 + (code c - b'0')) n s)

number_of-LacksDots : (n : ℕ) (s : String) → number_of (ascii s) ≡ some n → LacksDots s
unfolding number_of
number_of-LacksDots n String.[] h = absurd (none-ne-some n h)
number_of-LacksDots n (String.◌∷◌ c s) h = digits_value-LacksDots 0 n (String.◌∷◌ c s) h

split_dots-none : (s : String) → LacksDots s → split_dots s ≡ s ∷ []
unfolding split_dots all_chars
split_dots-none String.[] h = refl
split_dots-none (String.◌∷◌ c s) h =
    let (first, rest) = and_split (not (code c == b'.')) (all_chars (λ x. not (x == b'.')) s) h in
    let other : (code c == b'.') ≡ false = ground (arith, first) in
    rw (other, split_dots-none s rest)

split_dots-concat :
    (s t : String) → LacksDots s → split_dots (concat s (concat "." t)) ≡ s ∷ split_dots t
unfolding split_dots all_chars
split_dots-concat String.[] t h = rw (nil-append (concat "." t), cons-append "." "" t, nil-append t)
split_dots-concat (String.◌∷◌ c s) t h =
    let (first, rest) = and_split (not (code c == b'.')) (all_chars (λ x. not (x == b'.')) s) h in
    let other : (code c == b'.') ≡ false = ground (arith, first) in
    rw (cons-append c s (concat "." t), other, split_dots-concat s t rest, split_dots)

-- The text of a version of three numbers.
abbrev pub dotted : ℕ → ℕ → ℕ → String
dotted major minor patch =
    concat (to_string major) (concat "." (concat (to_string minor) (concat "." (to_string patch))))

split_dots-dotted :
    (major minor patch : ℕ)
    → split_dots (dotted major minor patch)
      ≡ to_string major ∷ to_string minor ∷ to_string patch ∷ []
split_dots-dotted major minor patch =
    let lacks = λ (n : ℕ). number_of-LacksDots n (to_string n) (number_of-to_string n) in
    rw (
      split_dots-concat (to_string major) _ (lacks major),
      split_dots-concat (to_string minor) (to_string patch) (lacks minor),
      split_dots-none (to_string patch) (lacks patch),
    )

parse_parts-some :
    (n : ℕ) (rest : List String)
    → n < 2 ^ 32
    → parse_parts (to_string n ∷ rest) ≡ n ∷ parse_parts rest
unfolding parse_parts
parse_parts-some n rest fits = rw (parse_u32-to_string n fits, parse_parts)

-- The version of a device whose text has three numbers below 256 joined by dots is packed so that
-- parse_device_os_version gives these numbers.
pub parse_device_os_version-os_version_of :
    (major minor patch : ℕ)
    → major < 256
    → minor < 256
    → patch < 256
    → parse_device_os_version (os_version_of (dotted major minor patch)) ≡ (major, minor, patch)
unfolding parse_parts
parse_device_os_version-os_version_of major minor patch a b c =
    let parts : parse_parts (split_dots (dotted major minor patch)) ≡ major ∷ minor ∷ patch ∷ [] =
      rw (split_dots-dotted major minor patch) (
        parse_parts-some major (to_string minor ∷ to_string patch ∷ []) (omega (arith, a))
        ∙ ap (◌∷◌ major) (
            parse_parts-some minor (to_string patch ∷ []) (omega (arith, b))
            ∙ ap (◌∷◌ minor) (parse_parts-some patch [] (omega (arith, c))))) in
    let small : kept major minor (patch ∷ []) ≡ (major, minor, patch) = ground (arith, a, b, c) in
    ap (λ ps. parse_device_os_version (result_os_version ps)) parts
    ∙ (parse_device_os_version-result_os_version major minor (patch ∷ []) ∙ small)
