-- ===== src/HttpServer/Texts.antt =====
-- The calls of `str` that src/http_server.rs makes.
pub mod Splits
pub mod Dots
use mathlib.Core.Option
use Prim.Native.Char.{Char, code}
use Prim.Native.String.{◌++◌ as concat}
use ios_webkit_debug_proxy_r.Base.{
  ℕ, String, Bool, true, false, ◌&&◌, ◌||◌, Option, none, some, List, [], ◌∷◌, ◌==◌, nat_eq,
  if◌then◌else◌,
}

-- `chars().all(..)`, on the code points.
unfoldable pub all_chars : (ℕ → Bool) → String → Bool
all_chars p String.[] = true
all_chars p (String.◌∷◌ c s) = p (code c) && all_chars p s

-- `rsplit_once(c)`: what stands before the last such character, and behind it.
unfoldable pub rsplit_once : Char → String → Option (String × String)
rsplit_once c String.[] = none
rsplit_once c (String.◌∷◌ d s) = elim (rsplit_once c s) [
  | some (before, behind) ↦ some (String.◌∷◌ d before, behind)
  | none ↦ if code d == code c then some ("", s) else none
]

-- `rsplit(c).next()`: the text itself, if the character is not in it.
abbrev pub last_part : Char → String → String
last_part c s = elim (rsplit_once c s) [ some (before, behind) ↦ behind | none ↦ s ]

abbrev pub starts_with_dot : String → Bool
starts_with_dot String.[] = false
starts_with_dot (String.◌∷◌ c s) = code c == b'.'

-- `contains("..")`
unfoldable pub contains_dots : String → Bool
contains_dots String.[] = false
contains_dots (String.◌∷◌ c s) = (code c == b'.' && starts_with_dot s) || contains_dots s

unfoldable pub strip_prefix : String → String → Option String
strip_prefix String.[] s = some s
strip_prefix (String.◌∷◌ c p) String.[] = none
strip_prefix (String.◌∷◌ c p) (String.◌∷◌ d s) =
    let rest : Option String = strip_prefix p s in if code c == code d then rest else none

-- `starts_with`
abbrev pub starts_with : String → String → Bool
starts_with p s = elim (strip_prefix p s) [ some rest ↦ true | none ↦ false ]

abbrev pub is_empty_str : String → Bool
is_empty_str String.[] = true
is_empty_str (String.◌∷◌ c s) = false

-- `join(sep)`
unfoldable pub join : String → List String → String
join sep [] = ""
join sep (s ∷ []) = s
join sep (s ∷ t ∷ rest) = concat s (concat sep (join sep (t ∷ rest)))
