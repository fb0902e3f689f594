-- ===== src/PortConfig/Lines.antt =====
-- The segments of a line: what add_line reads is what the segments say one by one.
use ios_webkit_debug_proxy_r.Base.{
  ℕ, ◌≡◌, inl, inr, refl, ap, Bool, true, false, not, [], ◌∷◌, ◌++◌, nat_eq, Bytes, length, drop,
  arith, All, Bool-cases, take-append, drop-append,
}
use ios_webkit_debug_proxy_r.PortConfig.{is_blank, ends_segment, count_while, cut}

-- The text is at its end or goes on with a byte that does not pass.
abbrev pub Stops : (ℕ → Bool) → Bytes → Type 0
Stops p [] = Unit
Stops p (c ∷ rest) = p c ≡ false

abbrev pub inside : ℕ → Bool
inside c = not (ends_segment c)

abbrev pub IsSegment : Bytes → Type 0
IsSegment s = All (λ c. ends_segment c ≡ false) s

abbrev pub trim : Bytes → Bytes
trim s = drop (count_while is_blank s) s

count_while-blank :
    (s t : Bytes) → Stops is_blank t → count_while is_blank (s ++ t) ≡ count_while is_blank s
unfolding count_while
count_while-blank [] [] stop = refl
count_while-blank [] (c ∷ t) stop = rw stop
count_while-blank (c ∷ s) t stop = ground (arith, count_while-blank s t stop)

count_while-inside :
    (s t : Bytes) → IsSegment s → Stops inside t → count_while inside (s ++ t) ≡ length s
unfolding count_while
count_while-inside [] [] segment stop = refl
count_while-inside [] (c ∷ t) segment stop = rw stop
count_while-inside (c ∷ s) t segment stop =
    let here : inside c ≡ true = ap not segment.0 in
    rw (here, count_while-inside s t segment.1 stop)

-- What is left behind some bytes of the first part.
drop-inside : (s t : Bytes) → drop (count_while is_blank s) (s ++ t) ≡ trim s ++ t
unfolding count_while
drop-inside [] t = refl
drop-inside (c ∷ s) t = elim (Bool-cases (is_blank c)) [
  | inl blank ↦ rw blank (drop-inside s t)
  | inr other ↦ rw other
]

trim-IsSegment : (s : Bytes) → IsSegment s → IsSegment (trim s)
unfolding count_while
trim-IsSegment [] segment = tt
trim-IsSegment (c ∷ s) segment = elim (Bool-cases (is_blank c)) [
  | inl blank ↦ rw blank (trim-IsSegment s segment.1)
  | inr other ↦ rw other segment
]

-- A delimiter is no blank.
blank_of_ends : (t : Bytes) → Stops inside t → Stops is_blank t
blank_of_ends [] stop = tt
blank_of_ends (c ∷ t) stop = ground arith

pub cut-segment :
    (s t : Bytes)
    → IsSegment s
    → Stops inside t
    → cut (s ++ t) ≡ record { blanks = count_while is_blank s; segment = trim s; tail = t }
unfolding cut
cut-segment s t segment stop =
    let blanks = count_while-blank s t (blank_of_ends t stop) in
    let rest = drop-inside s t in
    let size = count_while-inside (trim s) t (trim-IsSegment s segment) stop in
    rw (
      blanks,
      rest,
      size,
      take-append (length (trim s)) (trim s) t refl,
      drop-append (length (trim s)) (trim s) t refl,
      cut,
    )
