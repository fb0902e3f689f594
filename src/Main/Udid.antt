-- ===== src/Main/Udid.antt =====
-- The bridge that is run where the command line names a device.
use ios_webkit_debug_proxy_r.Base.{
  ℕ, ◌≤◌, ◌≡◌, refl, ap, subst, ◌∙◌, Bool, true, false, Option, none, some, List, [], ◌∷◌, ◌++◌,
  append-nil, nat_eq, arith, Bytes, length,
}
use ios_webkit_debug_proxy_r.Base.Int.{negsuc}
use ios_webkit_debug_proxy_r.PortConfig.{
  PortConfigEntry, Captures, entry_of, eq_ignore_ascii_case, null, wildcard, is_wildcard, is_blank,
  count_while, matches, find_entry, add_line, Selected, select_port,
}
use ios_webkit_debug_proxy_r.PortConfig.Lines.{IsSegment}
use ios_webkit_debug_proxy_r.PortConfig.Segments.{rules_of, entries_of, Adds, is_none}
use ios_webkit_debug_proxy_r.PortConfig.Rules.{add_line-Adds}
use ios_webkit_debug_proxy_r.Main.{
  Args, new_bridge, list_port_of, device_ports_of, http_service_config_of, config_of,
  entries_of_config, bridge_of,
}

-- Texts of different lengths are not equal.
eq_ignore_ascii_case-length : (s t : Bytes) → eq_ignore_ascii_case s t ≡ true → length s ≡ length t
unfolding eq_ignore_ascii_case
eq_ignore_ascii_case-length [] [] h = refl
eq_ignore_ascii_case-length [] (d ∷ t) h = ground arith
eq_ignore_ascii_case-length (c ∷ s) [] h = ground arith
eq_ignore_ascii_case-length (c ∷ s) (d ∷ t) h = ground (arith, eq_ignore_ascii_case-length s t)

-- The rule names a device by an identifier of the length of a UDID.
pub record IsNamed (e : PortConfigEntry) : Type 0 where
  pub id : Bytes
  pub names : e.device_id ≡ some id
  pub long : 25 ≤ length id

is_wildcard-length : (s : Bytes) → is_wildcard s ≡ true → length s ≡ 1
is_wildcard-length [] h = ground arith
is_wildcard-length (c ∷ []) h = refl
is_wildcard-length (c ∷ d ∷ s) h = ground arith

find_entry-IsNamed-list : (e : PortConfigEntry) → IsNamed e → find_entry (e ∷ []) none ≡ none
unfolding matches
find_entry-IsNamed-list e v =
    let other : is_wildcard v.id ≡ false = ground (arith, is_wildcard-length v.id, v.long) in
    rw (v.names, other)

find_entry-IsNamed-devices :
    (e : PortConfigEntry) → IsNamed e → find_entry (e ∷ []) (some wildcard) ≡ none
unfolding matches
find_entry-IsNamed-devices e v =
    let other : is_wildcard v.id ≡ false = ground (arith, is_wildcard-length v.id, v.long) in
    let differs : eq_ignore_ascii_case v.id wildcard ≡ false =
      ground (arith, eq_ignore_ascii_case-length v.id wildcard, v.long) in
    rw (v.names, other, differs)

entry_of-IsNamed :
    (caps : Captures) (id : Bytes)
    → caps.device_id ≡ some id
    → 25 ≤ length id
    → IsNamed (entry_of caps)
unfolding entry_of
entry_of-IsNamed caps id names long =
    let differs : eq_ignore_ascii_case id null ≡ false =
      ground (arith, eq_ignore_ascii_case-length id null, long) in
    record { id = id; names = rw (names, differs); long = long }

abbrev nothing : Selected
nothing = record {
  current_port = negsuc 0;
  min_port = negsuc 0;
  max_port = negsuc 0;
  is_ok = false;
}

select_port-nothing :
    (entries : List PortConfigEntry) (device_id : Option Bytes)
    → find_entry entries device_id ≡ none
    → select_port entries device_id (negsuc 0) ≡ nothing
unfolding select_port
select_port-nothing entries device_id absent = rw (absent, select_port)

is_none-none : {A : Type 0} (o : Option A) → is_none o ≡ true → o ≡ none
is_none-none none h = refl
is_none-none (some a) h = ground arith

module _ (is_udid : Bytes → Bool) (captures : Bytes → Option Captures)
    (read_file : Bytes → Option (List (Option Bytes))) where
  -- A configuration of one rule.
  entries_of_config-one :
      (c : ℕ) (config : Bytes) (caps : Captures)
      → IsSegment (c ∷ config)
      → is_blank c ≡ false
      → captures (c ∷ config) ≡ some caps
      → entries_of_config is_udid captures read_file (c ∷ config) ≡ entry_of caps ∷ []
  unfolding entries_of_config count_while
  entries_of_config-one c config caps segment first match' =
      let line : c ∷ (config ++ []) ≡ c ∷ config = append-nil (c ∷ config) in
      let rules : rules_of ((c ∷ config) ∷ []) ≡ (c ∷ config) ∷ [] = rw (first, rules_of) in
      let parsed : entries_of captures ((c ∷ config) ∷ []) ≡ (entry_of caps ∷ [], true) =
        rw (match', entries_of) in
      let v : Adds captures [] ((c ∷ config) ∷ []) (add_line captures [] (c ∷ config)) =
        subst (λ r. Adds captures [] r (add_line captures [] (c ∷ config))) rules
          (subst (λ l. Adds captures [] (rules_of ((c ∷ config) ∷ [])) (add_line captures [] l))
            line (add_line-Adds captures [] (c ∷ config) [] [] segment tt tt)) in
      let valid : (add_line captures [] (c ∷ config)).invalid ≡ none =
        is_none-none _ (v.is_valid ∙ ap (λ e. e.1) parsed) in
      rw (valid, entries_of_config) (v.all ∙ ap (λ e. e.0) parsed)

  -- Where the configuration that the arguments give is one rule, with no separator and no blank in
  -- front, and the pattern finds in it a device of 25 bytes or more, the bridge that main runs has
  -- no range of ports for devices and no HTTP service, whatever ports the rule names.
  pub bridge_of-udid :
      (args : Args) (c : ℕ) (config : Bytes) (caps : Captures) (id : Bytes)
      → config_of is_udid captures read_file args ≡ some (c ∷ config)
      → IsSegment (c ∷ config)
      → is_blank c ≡ false
      → captures (c ∷ config) ≡ some caps
      → caps.device_id ≡ some id
      → 25 ≤ length id
      → bridge_of is_udid captures read_file args
        ≡ some (new_bridge none none args.sim_wi_socket_addr false)
  unfolding bridge_of device_ports_of http_service_config_of list_port_of
  bridge_of-udid args c config caps id given segment first match' names long =
      let one = entries_of_config-one c config caps segment first match' in
      let v = entry_of-IsNamed caps id names long in
      let list : select_port (entry_of caps ∷ []) none (negsuc 0) ≡ nothing =
        select_port-nothing _ none (find_entry-IsNamed-list (entry_of caps) v) in
      let devices : select_port (entry_of caps ∷ []) (some wildcard) (negsuc 0) ≡ nothing =
        select_port-nothing _ (some wildcard) (find_entry-IsNamed-devices (entry_of caps) v) in
      rw (given, one, list, devices, bridge_of)
