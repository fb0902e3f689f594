-- ===== src/Main/Ports.antt =====
-- The ports of devices under a rule of the configuration.
use mathlib.Core.Option.{some-injective, none-ne-some}
use ios_webkit_debug_proxy_r.Base.{
  ℕ, ◌+◌, ◌-◌, ◌%◌, ◌^◌, ◌≤◌, ◌<◌, String, ◌≡◌, inl, inr, refl, subst, true, false, Option, none,
  some, List, nat_eq, arith, if◌then◌else◌, if_rule, Bool-cases, ltb, leb, ◌&&◌,
}
use ios_webkit_debug_proxy_r.Base.Dict
use ios_webkit_debug_proxy_r.Base.Int.{pos}
use ios_webkit_debug_proxy_r.Plist.{Plist}
use ios_webkit_debug_proxy_r.PortConfig.{PortConfigEntry, find_entry, wildcard, select_port}
use ios_webkit_debug_proxy_r.Proxy.State.{PortRange, ProxyBridge, World}
use ios_webkit_debug_proxy_r.Proxy.Devices.{Outside, first_free, allocate_port, connect_device}
use ios_webkit_debug_proxy_r.Proxy.Devices.Ports.{IsFirstFree, first_free_lem}
use ios_webkit_debug_proxy_r.Main.{device_ports_of}

-- The rule that is found for devices gives them the ports from lo to hi, which are 16 bits wide.
pub record Gives (entries : List PortConfigEntry) (lo hi : ℕ) : Type 0 where
  pub rule : PortConfigEntry
  pub found : find_entry entries (some wildcard) ≡ some rule
  pub min_port : rule.min_port ≡ pos lo
  pub max_port : rule.max_port ≡ pos hi
  pub positive : 0 < lo
  pub ordered : lo ≤ hi
  pub fits : hi < 2 ^ 16

device_ports_of-Gives :
    (entries : List PortConfigEntry) (lo hi : ℕ)
    → Gives entries lo hi
    → device_ports_of entries ≡ some (record { start = lo; end = (hi + 1) % 2 ^ 16 })
unfolding device_ports_of select_port
device_ports_of-Gives entries lo hi v =
    let low : lo % 2 ^ 16 ≡ lo = omega (arith, v.ordered, v.fits) in
    let high : hi % 2 ^ 16 ≡ hi = omega (arith, v.fits) in
    let kept : (ltb 0 lo && leb lo hi) ≡ true = ground (arith, v.positive, v.ordered) in
    rw (v.found, v.min_port, v.max_port, low, high, kept, device_ports_of, select_port)

-- A port that is picked of a search's result is that result.
picked :
    (used : List ℕ) (p e port : ℕ) (o : Outside) (found : Option ℕ)
    → IsFirstFree used p e found
    → (elim found [ none ↦ none | some q ↦ if o.can_bind q then some q else none ]) ≡ some port
    → (p ≤ port) × (port < e) × (Dict.contains used port ≡ false)
picked used p e port o none first h = absurd (none-ne-some port h)
picked used p e port o (some q) (low, high, free, above) h = elim (Bool-cases (o.can_bind q)) [
  | inl bound ↦
      let picks : some q ≡ some port =
        subst (λ t. (if t then some q else none) ≡ some port) bound h in
      let same : q ≡ port = some-injective q port picks in
      subst (λ x. (p ≤ x) × (x < e) × (Dict.contains used x ≡ false)) same (low, high, free)
  | inr taken ↦
      let fails : none ≡ some port =
        subst (λ t. (if t then some q else none) ≡ some port) taken h in
      absurd (none-ne-some port fails)
]

-- A port that is allocated from a range is in it, and no device uses it.
pub allocate_port-range :
    (range : PortRange) (used : List ℕ) (o : Outside) (port : ℕ)
    → allocate_port (some range) used o ≡ some port
    → (range.start ≤ port) × (port < range.end) × (Dict.contains used port ≡ false)
unfolding allocate_port
allocate_port-range range used o port h =
    let count : ℕ = range.end - range.start in
    let (low, high, free) =
      picked used range.start (range.start + count) port o (first_free count range.start used)
        (first_free_lem count range.start used) h in
    (low, omega (arith, low, high), free)

-- Where the rule that is found for devices has the ports from lo to hi, positive and 16 bits wide,
-- a port that connect_device allocates is from lo to hi and no device uses it.
pub allocate_port-Gives :
    (entries : List PortConfigEntry) (lo hi : ℕ) (used : List ℕ) (o : Outside) (port : ℕ)
    → Gives entries lo hi
    → allocate_port (device_ports_of entries) used o ≡ some port
    → (lo ≤ port) × (port ≤ hi) × (Dict.contains used port ≡ false)
allocate_port-Gives entries lo hi used o port v h =
    let e : ℕ = (hi + 1) % 2 ^ 16 in
    let range : PortRange = record { start = lo; end = e } in
    let h' : allocate_port (some range) used o ≡ some port =
      subst (λ r. allocate_port r used o ≡ some port) (device_ports_of-Gives entries lo hi v) h in
    let (low, high, free) = allocate_port-range range used o port h' in
    let fit : e ≤ hi + 1 = omega arith in (low, omega (arith, high, fit), free)

-- Where the bridge has the ports of the configuration, and the rule that is found for devices ends
-- at port 65535, no device is ever connected: connect_device leaves the world as it was, in a
-- build whose sums wrap.
pub connect_device-last_port :
    (p : Plist) (b : ProxyBridge) (entries : List PortConfigEntry) (lo : ℕ) (id : String)
    (o : Outside) (w : World)
    → b.device_ports ≡ device_ports_of entries
    → Gives entries lo 65535
    → connect_device p b id o w ≡ w
unfolding connect_device allocate_port first_free
connect_device-last_port p b entries lo id o w ports v =
    let empty : 0 - lo ≡ 0 = omega arith in
    rw (ports, device_ports_of-Gives entries lo 65535 v, empty)
      (if_rule (λ r. r ≡ w) _ _ _ (λ _. refl) λ _. refl)
