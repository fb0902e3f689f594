-- ===== src/HttpServer/Texts/Dots.antt =====
-- contains_dots finds two dots wherever they stand.
use Prim.Native.Char.{Char, code}
use Prim.Native.String.{◌++◌ as concat}
use text.Mathlib.TextEquality.{Char-path}
use text.Mathlib.TextLemmas.{nil-append, cons-append}
use ios_webkit_debug_proxy_r.Base.{
  String, ◌≡◌, refl, sym, ap, ◌∙◌, Bool, true, false, ◌&&◌, ◌||◌, nat_eq, ◌==◌, Bool-cases,
  and_split, inl, inr, arith,
}
use ios_webkit_debug_proxy_r.HttpServer.Texts.{contains_dots, starts_with_dot}

or_true : (b : Bool) → (b || true) ≡ true
or_true true = refl
or_true false = refl

dots : (behind : String) → contains_dots (concat ".." behind) ≡ true
unfolding contains_dots
dots behind = rw (cons-append "." "." behind, cons-append "." "" behind)

pub contains_dots-concat :
    (before behind : String) → contains_dots (concat before (concat ".." behind)) ≡ true
unfolding contains_dots
contains_dots-concat String.[] behind = rw (nil-append (concat ".." behind), dots behind)
contains_dots-concat (String.◌∷◌ c before) behind =
    rw (cons-append c before (concat ".." behind), contains_dots-concat before behind) (or_true _)

starts_with_dot-tail :
    (s : String) → starts_with_dot s ≡ true → (t : String) × (s ≡ String.◌∷◌ "." t)
starts_with_dot-tail String.[] h = absurd (ground arith)
starts_with_dot-tail (String.◌∷◌ c s) h =
    (s, ap (λ x. String.◌∷◌ x s) (Char-path c "." (ground (arith, h))))

split_here :
    (c : Char) (s t : String)
    → c ≡ "."
    → s ≡ String.◌∷◌ "." t
    → String.◌∷◌ c s ≡ concat "" (concat ".." t)
split_here c s t dot rest = rw (
  nil-append (concat ".." t),
  cons-append "." "." t,
  cons-append "." "" t,
  nil-append t,
  dot,
  rest,
)

pub contains_dots-split :
    (s : String)
    → contains_dots s ≡ true
    → (before : String) × (behind : String) × (s ≡ concat before (concat ".." behind))
unfolding contains_dots
contains_dots-split String.[] h = absurd (ground arith)
contains_dots-split (String.◌∷◌ c s) h = elim (Bool-cases (code c == b'.' && starts_with_dot s)) [
  | inl both ↦
      let (first, second) = and_split (code c == b'.') (starts_with_dot s) both in
      let (t, rest) = starts_with_dot-tail s second in
      let dot : c ≡ "." = Char-path c "." (ground (arith, first)) in
      ("", t, split_here c s t dot rest)
  | inr other ↦
      let later : contains_dots s ≡ true = ground (arith, other) in
      let (before, behind, at) = contains_dots-split s later in
      (
        String.◌∷◌ c before,
        behind,
        ap (String.◌∷◌ c) at ∙ sym (cons-append c before (concat ".." behind)),
      )
]
