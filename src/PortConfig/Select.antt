-- ===== src/PortConfig/Select.antt =====
-- The rule that select_port takes, and the ports that it leaves.
use ios_webkit_debug_proxy_r.Base.{
  ◌≡◌, ◌⊎◌, inl, refl, true, false, Option, none, some, List, [], ◌∷◌, ◌++◌, Bytes, All, arith,
  option_rule,
}
use ios_webkit_debug_proxy_r.Base.Int.{ℤ, pos, negsuc, ltb_ℤ, leb_ℤ}
use ios_webkit_debug_proxy_r.PortConfig.{
  PortConfigEntry, matches, find_entry, Selected, select_port,
}

-- No rule of these is for the device.
abbrev pub NoneMatches : Option Bytes → List PortConfigEntry → Type 0
NoneMatches device_id entries = All (λ e. matches device_id e ≡ false) entries

pub find_entry-first :
    (device_id : Option Bytes) (before after : List PortConfigEntry) (e : PortConfigEntry)
    → NoneMatches device_id before
    → matches device_id e ≡ true
    → find_entry (before ++ e ∷ after) device_id ≡ some e
find_entry-first device_id [] after e none_before here = rw here
find_entry-first device_id (b ∷ before) after e none_before here =
    rw (none_before.0) (find_entry-first device_id before after e none_before.1 here)

pub find_entry-none :
    (device_id : Option Bytes) (entries : List PortConfigEntry)
    → NoneMatches device_id entries
    → find_entry entries device_id ≡ none
find_entry-none device_id [] all = refl
find_entry-none device_id (e ∷ entries) all = rw (all.0) (find_entry-none device_id entries all.1)

-- The port is given up, or it lies between the two others.
abbrev pub IsSelection : Selected → Type 0
IsSelection s =
    (ltb_ℤ s.current_port (pos 0) ≡ true)
    ⊎ ((leb_ℤ s.min_port s.current_port ≡ true) × (leb_ℤ s.current_port s.max_port ≡ true))

leb_of_ltb : (a b : ℤ) → ltb_ℤ a b ≡ false → leb_ℤ b a ≡ true
leb_of_ltb (pos a) (pos b) h = ground arith
leb_of_ltb (pos a) (negsuc b) h = refl
leb_of_ltb (negsuc a) (pos b) h = ground arith
leb_of_ltb (negsuc a) (negsuc b) h = ground arith

pub select_port-IsSelection :
    (entries : List PortConfigEntry) (device_id : Option Bytes) (current_port : ℤ)
    → IsSelection (select_port entries device_id current_port)
unfolding select_port
select_port-IsSelection entries device_id current_port =
    option_rule IsSelection (find_entry entries device_id) _ _ (λ _. inl refl)
      λ e _. ground (
        arith,
        leb_of_ltb current_port e.min_port,
        leb_of_ltb e.max_port current_port,
        leb_of_ltb current_port (pos 0),
        leb_of_ltb (pos 0) current_port,
      )
