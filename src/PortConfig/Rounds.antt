-- ===== src/PortConfig/Rounds.antt =====
-- The rounds of add_line's loop.
use ios_webkit_debug_proxy_r.Base.{
  ℕ, zero, suc, ◌+◌, ◌≤◌, ◌<◌, ◌≡◌, refl, not, Option, none, some, List, [], ◌∷◌, ◌==◌, nat_eq,
  if◌then◌else◌, Bool-cases, inl, inr, Bytes, length, drop, arith, length-drop,
}
use ios_webkit_debug_proxy_r.PortConfig.{
  PortConfigEntry, Captures, ends_segment, count_while, is_blank, Cut, cut, Added, add_segment,
  add_segments, add_line,
}

length-cut : (rest : Bytes) → length (cut rest).tail ≤ length rest
unfolding cut
length-cut rest =
    let blanks : ℕ = count_while is_blank rest in
    let behind : Bytes = drop blanks rest in
    let size : ℕ = count_while (λ c. not (ends_segment c)) behind in
    omega (arith, length-drop blanks rest, length-drop size behind)

module _ (captures : Bytes → Option Captures) where
  -- What the loop does behind a segment.
  abbrev goes_on : ℕ → Option ℕ → Bytes → Added → ℕ → Option Added
  goes_on fuel invalid tail added next = elim invalid [
    | some at ↦ some added
    | none ↦ elim tail [
      | [] ↦ some added
      | b ∷ more ↦
          if b == b',' then add_segments captures fuel more next added.entries else some added
    ]
  ]

  goes_on-fuel :
      (m n : ℕ) (invalid : Option ℕ) (tail : Bytes) (added : Added) (next : ℕ)
      → ((more : Bytes)
          → length more < length tail
          → (x : Added) × (add_segments captures m more next added.entries ≡ some x)
            × (add_segments captures n more next added.entries ≡ some x))
      → (x : Added) × (goes_on m invalid tail added next ≡ some x)
        × (goes_on n invalid tail added next ≡ some x)
  goes_on-fuel m n (some at) tail added next same = (added, refl, refl)
  goes_on-fuel m n none [] added next same = (added, refl, refl)
  goes_on-fuel m n none (b ∷ tail) added next same = elim (Bool-cases (b == b',')) [
    | inl comma ↦ rw comma (same tail (omega arith))
    | inr other ↦ rw other (added, refl, refl)
  ]

  -- Two amounts of fuel, each more than the bytes, give the same result.
  add_segments-fuel :
      (m n : ℕ) (rest : Bytes) (curr : ℕ) (entries : List PortConfigEntry)
      → length rest < m
      → length rest < n
      → (x : Added) × (add_segments captures m rest curr entries ≡ some x)
        × (add_segments captures n rest curr entries ≡ some x)
  unfolding add_segments
  add_segments-fuel zero n rest curr entries more more' = absurd (omega arith)
  add_segments-fuel (suc m) zero rest curr entries more more' = absurd (omega arith)
  add_segments-fuel (suc m) (suc n) rest curr entries more more' =
      let c : Cut = cut rest in
      let added : Added = add_segment captures c.segment (curr + c.blanks) entries in
      goes_on-fuel m n added.invalid c.tail added (suc (curr + c.blanks + length c.segment))
        λ shorter less.
          let short = length-cut rest in
          add_segments-fuel m n shorter _ _ (omega (arith, less, short, more))
            (omega (arith, less, short, more'))

  -- The loop of add_line ends within one round more than there are bytes: with any number of
  -- rounds above that of the bytes it returns, and what it returns is what add_line gives.
  pub add_line-ends :
      (fuel : ℕ) (entries : List PortConfigEntry) (line : Bytes)
      → length line < fuel
      → add_segments captures fuel line 0 entries ≡ some (add_line captures entries line)
  unfolding add_line
  add_line-ends fuel entries line more =
      let (x, ran, enough) =
        add_segments-fuel fuel (suc (length line)) line 0 entries more (omega arith) in
      rw (enough, add_line) ran
