-- ===== src/PortConfig/Segments.antt =====
-- What the segments of a line are and what they add.
use ios_webkit_debug_proxy_r.Base.{
  ◌≡◌, refl, ap, Bool, true, false, not, Option, none, some, List, [], ◌∷◌, ◌++◌, ◌==◌, nat_eq,
  Bytes,
}
use ios_webkit_debug_proxy_r.PortConfig.{PortConfigEntry, Captures, entry_of, ends_segment, Added}
use ios_webkit_debug_proxy_r.PortConfig.Lines.{Stops, inside, trim}

-- Segments with commas between them, and what follows the last.
abbrev pub line_of : Bytes → List Bytes → Bytes → Bytes
line_of s [] tail = s ++ tail
line_of s (t ∷ segments) tail = s ++ b',' ∷ line_of t segments tail

-- The end of the line, or a byte that ends it: a zero, a line feed or the `#` of a comment.
abbrev pub IsTail : Bytes → Type 0
IsTail [] = Unit
IsTail (c ∷ rest) = (ends_segment c ≡ true) × ((c == b',') ≡ false)

-- The segments that hold more than blanks, without the blanks before.
abbrev pub rules_of : List Bytes → List Bytes
rules_of [] = []
rules_of (s ∷ segments) = elim (trim s) [
  | [] ↦ rules_of segments
  | c ∷ t ↦ (c ∷ t) ∷ rules_of segments
]

abbrev pub is_none {ℓ} : {A : Type ℓ} → Option A → Bool
is_none none = true
is_none (some a) = false

-- What follows the first segment of a line.
abbrev pub rest_of : List Bytes → Bytes → Bytes
rest_of [] tail = tail
rest_of (t ∷ segments) tail = b',' ∷ line_of t segments tail

pub rest_of-Stops :
    (segments : List Bytes) (tail : Bytes) → IsTail tail → Stops inside (rest_of segments tail)
rest_of-Stops [] [] h = tt
rest_of-Stops [] (c ∷ tail) h = ap not h.0
rest_of-Stops (t ∷ segments) tail h = refl

pub line_of-rest_of :
    (s : Bytes) (segments : List Bytes) (tail : Bytes)
    → line_of s segments tail ≡ s ++ rest_of segments tail
line_of-rest_of s [] tail = refl
line_of-rest_of s (t ∷ segments) tail = refl

module _ (captures : Bytes → Option Captures) where
  -- The entries of the rules before the first that is none, and if all are rules.
  abbrev pub entries_of : List Bytes → List PortConfigEntry × Bool
  entries_of [] = ([], true)
  entries_of (rule ∷ rules) = elim (captures rule) [
    | none ↦ ([], false)
    | some caps ↦ (entry_of caps ∷ (entries_of rules).0, (entries_of rules).1)
  ]

  -- What a line adds.
  pub record Adds (entries : List PortConfigEntry) (rules : List Bytes) (added : Added)
      : Type 0 where
    pub all : added.entries ≡ entries ++ (entries_of rules).0
    pub is_valid : is_none added.invalid ≡ (entries_of rules).1

  pub entries_of-bad :
      (rule : Bytes) (rules : List Bytes)
      → captures rule ≡ none
      → entries_of (rule ∷ rules) ≡ ([], false)
  entries_of-bad rule rules bad = rw (bad, entries_of)

  pub entries_of-good :
      (rule : Bytes) (rules : List Bytes) (caps : Captures)
      → captures rule ≡ some caps
      → entries_of (rule ∷ rules) ≡ (entry_of caps ∷ (entries_of rules).0, (entries_of rules).1)
  entries_of-good rule rules caps good = rw (good, entries_of)
