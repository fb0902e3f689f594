-- ===== src/PortConfig/Tests.antt =====
-- A line of rules, and the choice of a port, at concrete values; the pattern is given by a function
-- that knows a few rules.
use ios_webkit_debug_proxy_r.Base.{
  ◌≡◌, Option, none, some, List, [], ◌∷◌, ◌==◌, nat_eq, arith, if◌then◌else◌, Bytes,
}
use ios_webkit_debug_proxy_r.PortConfig.{Captures, wildcard, add_line, add_segments}
use ios_webkit_debug_proxy_r.PortConfig.Segments.{line_of, rules_of, Adds}
use ios_webkit_debug_proxy_r.PortConfig.Rules.{add_line-Adds}
use ios_webkit_debug_proxy_r.PortConfig.Rounds.{add_line-ends}

-- A rule that starts with a colon is for all devices; one with `n` is for the list.
abbrev captures : Bytes → Option Captures
captures [] = none
captures (c ∷ rest) =
    if c == b':'
    then some (record { device_id = none; min_port = some rest; max_port = none })
    else if c == b'n'
    then some (record { device_id = some wildcard; min_port = none; max_port = none })
    else none

abbrev first : Bytes
first = b' ' ∷ b':' ∷ b'8' ∷ []

-- ` :8,,x# n`: the third segment is no rule.
abbrev segments : List Bytes
segments = [] ∷ (b'x' ∷ []) ∷ []

abbrev comment : Bytes
comment = b'#' ∷ b' ' ∷ b'n' ∷ []

add_line-Adds_example :
    Adds captures []
      (rules_of (first ∷ segments))
      (add_line captures [] (line_of first segments comment))
add_line-Adds_example =
    add_line-Adds captures [] first segments comment (ground arith) (ground arith) (ground arith)

add_line-ends_example : add_segments captures 40 first 0 [] ≡ some (add_line captures [] first)
add_line-ends_example = add_line-ends captures 40 [] first (omega arith)
