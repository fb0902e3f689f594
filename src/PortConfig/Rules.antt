-- ===== src/PortConfig/Rules.antt =====
-- A line of several rules, read in order up to the first that is none.
use ios_webkit_debug_proxy_r.Base.{
  ℕ, zero, suc, ◌+◌, ◌≤◌, ◌<◌, ◌≡◌, inl, inr, refl, sym, ap, subst, ◌∙◌, Option, none, some, List,
  [], ◌∷◌, ◌++◌, append-nil, append_assoc, ◌==◌, nat_eq, if◌then◌else◌, Bytes, length, arith, All,
  Option-cases, length-append,
}
use ios_webkit_debug_proxy_r.PortConfig.{
  PortConfigEntry, Captures, entry_of, is_blank, count_while, Added, Cut, add_segment, add_segments,
  add_line,
}
use ios_webkit_debug_proxy_r.PortConfig.Segments.{
  line_of, IsTail, rules_of, entries_of, Adds, rest_of, rest_of-Stops, line_of-rest_of,
  entries_of-bad, entries_of-good,
}
use ios_webkit_debug_proxy_r.PortConfig.Lines.{Stops, inside, IsSegment, trim, cut-segment}

module _ (captures : Bytes → Option Captures) where
  -- The loop returns, with what the rules add.
  record Returns (entries : List PortConfigEntry) (rules : List Bytes) (result : Option Added)
      : Type 0 where
    added : Added
    returned : result ≡ some added
    adds : Adds captures entries rules added

  -- The loop on the segment s with the tail t.
  abbrev goes_on : ℕ → Bytes → ℕ → Added → Option Added
  goes_on fuel t next added = elim added.invalid [
    | some at ↦ some added
    | none ↦ elim t [
      | [] ↦ some added
      | b ∷ more ↦
          if b == b',' then add_segments captures fuel more next added.entries else some added
    ]
  ]

  add_segments-cut :
      (fuel : ℕ) (s t : Bytes) (curr : ℕ) (entries : List PortConfigEntry)
      → IsSegment s
      → Stops inside t
      → add_segments captures (suc fuel) (s ++ t) curr entries
        ≡ goes_on fuel t
            (suc (curr + count_while is_blank s + length (trim s)))
            (add_segment captures (trim s) (curr + count_while is_blank s) entries)
  unfolding add_segments
  add_segments-cut fuel s t curr entries segment stop =
      ap
        (λ (c : Cut).
          goes_on fuel c.tail (suc (curr + c.blanks + length c.segment))
            (add_segment captures c.segment (curr + c.blanks) entries))
        (cut-segment s t segment stop)

  abbrev plain : List PortConfigEntry → Added
  plain entries = record { entries = entries; invalid = none }

  -- Where the loop does what it should from the entries of the first segment on, it does so from
  -- the segment on.
  module _ (fuel : ℕ) (s : Bytes) (segments : List Bytes) (tail : Bytes)
      (goes : (next : ℕ) (entries : List PortConfigEntry)
        → Returns entries
            (rules_of segments)
            (goes_on fuel (rest_of segments tail) next (plain entries))) where
    first-Adds :
        (x : Bytes) (at next : ℕ) (entries : List PortConfigEntry)
        → trim s ≡ x
        → Returns entries
            (rules_of (s ∷ segments))
            (goes_on fuel (rest_of segments tail) next (add_segment captures x at entries))
    unfolding add_segment
    first-Adds [] at next entries same = rw (same, rules_of) (goes next entries)
    first-Adds (c ∷ x) at next entries same = elim (Option-cases (captures (c ∷ x))) [
      | inl bad ↦
          let stopped = entries_of-bad captures (c ∷ x) (rules_of segments) bad in
          rw (same, bad, rules_of, add_segment)
            (record {
              added = record { entries = entries; invalid = some at };
              returned = refl;
              adds = record {
                all = sym (append-nil entries) ∙ ap (λ e. entries ++ e.0) (sym stopped);
                is_valid = ap (λ e. e.1) (sym stopped);
              };
            })
      | inr (caps, good) ↦
          let v = goes next (entries ++ entry_of caps ∷ []) in
          let added = entries_of-good captures (c ∷ x) (rules_of segments) caps good in
          rw (same, good, rules_of, add_segment)
            (record {
              added = v.added;
              returned = v.returned;
              adds = record {
                all =
                    v.adds.all
                    ∙ (append_assoc entries (entry_of caps ∷ [])
                          (entries_of captures (rules_of segments)).0
                        ∙ ap (λ e. entries ++ e.0) (sym added));
                is_valid = v.adds.is_valid ∙ ap (λ e. e.1) (sym added);
              };
            })
    ]

  plain-Adds : (entries : List PortConfigEntry) → Returns entries [] (some (plain entries))
  plain-Adds entries = record {
    added = plain entries;
    returned = refl;
    adds = record { all = sym (append-nil entries); is_valid = refl };
  }

  ended-Adds :
      (tail : Bytes) (fuel next : ℕ) (entries : List PortConfigEntry)
      → IsTail tail
      → Returns entries [] (goes_on fuel tail next (plain entries))
  ended-Adds [] fuel next entries end = plain-Adds entries
  ended-Adds (c ∷ tail) fuel next entries end = rw (end.1) (plain-Adds entries)

  -- The first segment, and then the others.
  loop-Adds :
      (fuel curr : ℕ) (s : Bytes) (segments : List Bytes) (tail : Bytes)
      (entries : List PortConfigEntry)
      → IsSegment s
      → IsTail tail
      → ((next : ℕ) (es : List PortConfigEntry)
          → Returns es (rules_of segments) (goes_on fuel (rest_of segments tail) next (plain es)))
      → Returns entries
          (rules_of (s ∷ segments))
          (add_segments captures (suc fuel) (line_of s segments tail) curr entries)
  loop-Adds fuel curr s segments tail entries first end goes =
      subst (Returns entries (rules_of (s ∷ segments)))
        (sym (
          ap (λ line. add_segments captures (suc fuel) line curr entries)
            (line_of-rest_of s segments tail)
          ∙ add_segments-cut fuel s (rest_of segments tail) curr entries first
              (rest_of-Stops segments tail end)))
        (first-Adds fuel s segments tail goes (trim s) _ _ entries refl)

  add_segments-Adds :
      (segments : List Bytes) (s tail : Bytes) (fuel curr : ℕ) (entries : List PortConfigEntry)
      → IsSegment s
      → All IsSegment segments
      → IsTail tail
      → length segments < fuel
      → Returns entries
          (rules_of (s ∷ segments))
          (add_segments captures fuel (line_of s segments tail) curr entries)
  add_segments-Adds segments s tail zero curr entries first others end enough = absurd (omega arith)
  add_segments-Adds [] s tail (suc fuel) curr entries first others end enough =
      loop-Adds fuel curr s [] tail entries first end λ next es. ended-Adds tail fuel next es end
  add_segments-Adds (t ∷ segments) s tail (suc fuel) curr entries first others end enough =
      loop-Adds fuel curr s (t ∷ segments) tail entries first end λ next es.
        add_segments-Adds segments t tail fuel next es others.0 others.1 end (omega arith)

  length-line_of :
      (segments : List Bytes) (s tail : Bytes) → length segments ≤ length (line_of s segments tail)
  length-line_of [] s tail = omega arith
  length-line_of (t ∷ segments) s tail =
      omega
        (arith, length-append s (b',' ∷ line_of t segments tail), length-line_of segments t tail)

  -- Of a line of segments joined by commas, whose end or first zero byte, line feed or # ends it,
  -- add_line adds an entry for each segment that holds more than blanks, in order, up to the first
  -- that the pattern refuses, and it reports a position exactly if there is one such.
  pub add_line-Adds :
      (entries : List PortConfigEntry) (s : Bytes) (segments : List Bytes) (tail : Bytes)
      → IsSegment s
      → All IsSegment segments
      → IsTail tail
      → Adds captures entries
          (rules_of (s ∷ segments))
          (add_line captures entries (line_of s segments tail))
  unfolding add_line
  add_line-Adds entries s segments tail first others end =
      let v =
        add_segments-Adds segments s tail (suc (length (line_of s segments tail))) 0 entries first
          others end (omega (arith, length-line_of segments s tail)) in
      rw (v.returned, add_line) v.adds
