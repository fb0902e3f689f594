-- ===== src/PortConfig.antt =====
-- src/port_config.rs: the rules for the ports, by line and by file, and the choice of a port. A line
-- is the list of its bytes.
pub mod Lines
pub mod Segments
pub mod Rules
pub mod Select
pub mod Rounds
pub mod Tests
use mathlib.Core.Option
use ios_webkit_debug_proxy_r.Base.{
  ℕ, zero, suc, ◌+◌, ◌-◌, String, Bool, true, false, not, ◌&&◌, ◌||◌, Option, none, some, List, [],
  ◌∷◌, ◌++◌, map, ◌==◌, nat_eq, ltb, leb, if◌then◌else◌, Bytes, length, take, drop, find,
}
use ios_webkit_debug_proxy_r.Base.Int.{ℤ, pos, negsuc, ltb_ℤ, leb_ℤ, parse_i32}

pub record PortConfigEntry : Type 0 where
  pub device_id : Option Bytes
  pub min_port : ℤ
  pub max_port : ℤ

-- What the `regex` crate finds of a rule: its groups 2, 3 and 5.
pub record Captures : Type 0 where
  pub device_id : Option Bytes
  pub min_port : Option Bytes
  pub max_port : Option Bytes

abbrev pub to_ascii_lowercase : ℕ → ℕ
to_ascii_lowercase c = if leb b'A' c && leb c b'Z' then c + 32 else c

-- `str::eq_ignore_ascii_case`
unfoldable pub eq_ignore_ascii_case : Bytes → Bytes → Bool
eq_ignore_ascii_case [] [] = true
eq_ignore_ascii_case [] (d ∷ t) = false
eq_ignore_ascii_case (c ∷ s) [] = false
eq_ignore_ascii_case (c ∷ s) (d ∷ t) =
    to_ascii_lowercase c == to_ascii_lowercase d && eq_ignore_ascii_case s t

abbrev pub null : Bytes
null = b'n' ∷ b'u' ∷ b'l' ∷ b'l' ∷ []

abbrev pub wildcard : Bytes
wildcard = b'*' ∷ []

-- `parse().unwrap_or(d)` of a group, and `d` without the group.
abbrev pub port_of : Option Bytes → ℤ → ℤ
port_of none d = d
port_of (some text) d = elim (parse_i32 text) [ some n ↦ n | none ↦ d ]

abbrev pub device_of : Option Bytes → Option Bytes
device_of none = some wildcard
device_of (some val) = if eq_ignore_ascii_case val null then none else some val

unfoldable pub entry_of : Captures → PortConfigEntry
entry_of caps =
    let min_port : ℤ = port_of caps.min_port (pos 0) in
    record {
      device_id = device_of caps.device_id;
      min_port = min_port;
      max_port = port_of caps.max_port min_port;
    }

abbrev pub is_blank : ℕ → Bool
is_blank c = c == b' ' || c == 9

-- What ends a segment: a zero byte, the end of the line, a comment, a comma.
abbrev pub ends_segment : ℕ → Bool
ends_segment c = c == 0 || c == 10 || c == b'#' || c == b','

-- How many bytes pass before the first that does not.
unfoldable pub count_while : (ℕ → Bool) → Bytes → ℕ
count_while p [] = 0
count_while p (c ∷ rest) = let more : ℕ = count_while p rest in if p c then suc more else 0

-- A segment, with the blanks before it and what follows it.
pub record Cut : Type 0 where
  pub blanks : ℕ
  pub segment : Bytes
  pub tail : Bytes

unfoldable pub cut : Bytes → Cut
cut rest =
    let blanks : ℕ = count_while is_blank rest in
    let size : ℕ = count_while (λ c. not (ends_segment c)) (drop blanks rest) in
    record {
      blanks = blanks;
      segment = take size (drop blanks rest);
      tail = drop size (drop blanks rest);
    }

-- The rules so far, and the position of the first segment that is none.
pub record Added : Type 0 where
  pub entries : List PortConfigEntry
  pub invalid : Option ℕ

-- `captures` is the `regex` crate's match of the rule's pattern.
module _ (captures : Bytes → Option Captures) where
  -- The segment that starts at `at`: its rule is added, if it is not empty.
  unfoldable pub add_segment : Bytes → ℕ → List PortConfigEntry → Added
  add_segment [] at entries = record { entries = entries; invalid = none }
  add_segment (c ∷ segment) at entries = elim (captures (c ∷ segment)) [
    | some caps ↦ record { entries = entries ++ entry_of caps ∷ []; invalid = none }
    | none ↦ record { entries = entries; invalid = some at }
  ]

  -- The loop of `add_line`, on the bytes from `curr` on; the first argument is fuel, and `none` is a
  -- loop that is out of it. It goes on behind a comma.
  unfoldable pub add_segments : ℕ → Bytes → ℕ → List PortConfigEntry → Option Added
  add_segments zero rest curr entries = none
  add_segments (suc fuel) rest curr entries =
      let c : Cut = cut rest in
      let added : Added = add_segment c.segment (curr + c.blanks) entries in
      elim added.invalid [
        | some at ↦ some added
        | none ↦ elim c.tail [
          | [] ↦ some added
          | b ∷ more ↦
              if b == b','
              then add_segments fuel more (suc (curr + c.blanks + length c.segment)) added.entries
              else some added
        ]
      ]

  -- Each round but the last takes a comma. The case without a result does not arise: the loop ends
  -- in as many rounds.
  unfoldable pub add_line : List PortConfigEntry → Bytes → Added
  add_line entries line = elim (add_segments (suc (length line)) line 0 entries) [
    | some added ↦ added
    | none ↦ record { entries = entries; invalid = none }
  ]

  -- The lines of a file that can be read; one that cannot ends the file with an error.
  unfoldable pub add_file : List PortConfigEntry → List (Option Bytes) → List PortConfigEntry × Bool
  add_file entries [] = (entries, true)
  add_file entries (none ∷ lines) = (entries, false)
  add_file entries (some line ∷ lines) = add_file (add_line entries line).entries lines

-- `s == "*"`
abbrev pub is_wildcard : Bytes → Bool
is_wildcard [] = false
is_wildcard (c ∷ []) = c == b'*'
is_wildcard (c ∷ d ∷ rest) = false

-- A rule for a device; `none` stands for the device list.
unfoldable pub matches : Option Bytes → PortConfigEntry → Bool
matches device_id entry = elim entry.device_id [
  | some s ↦
      is_wildcard s || elim device_id [ some did ↦ eq_ignore_ascii_case s did | none ↦ false ]
  | none ↦ elim device_id [ some did ↦ false | none ↦ true ]
]

abbrev pub find_entry : List PortConfigEntry → Option Bytes → Option PortConfigEntry
find_entry entries device_id = find (matches device_id) entries

-- The three ports that `select_port` writes, and if it found a rule.
pub record Selected : Type 0 where
  pub current_port : ℤ
  pub min_port : ℤ
  pub max_port : ℤ
  pub is_ok : Bool

unfoldable pub select_port : List PortConfigEntry → Option Bytes → ℤ → Selected
select_port entries device_id current_port = elim (find_entry entries device_id) [
  | some config ↦ record {
    current_port =
        if leb_ℤ (pos 0) current_port
          && (ltb_ℤ current_port config.min_port || ltb_ℤ config.max_port current_port)
        then negsuc 0
        else current_port;
    min_port = config.min_port;
    max_port = config.max_port;
    is_ok = true;
  }
  | none ↦ record {
    current_port = negsuc 0;
    min_port = negsuc 0;
    max_port = negsuc 0;
    is_ok = false;
  }
]
