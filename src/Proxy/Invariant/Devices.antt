-- ===== src/Proxy/Invariant/Devices.antt =====
-- Devices that come and go keep the invariant.
use ios_webkit_debug_proxy_r.Base.{
  ℕ, zero, suc, ◌+◌, ◌-◌, ◌≤◌, ◌<◌, String, ◌≡◌, refl, sym, ap, subst, ◌∙◌, true, false, some, List,
  [], ◌∷◌, arith, ◌==◌, string_eq, nat_eq, str_eq_iff, inl, inr, ◌⊎◌, Bool-cases, Option-cases,
  option_rule, if_rule,
}
use ios_webkit_debug_proxy_r.Base.Dict.{HashMap, IsUniq, values}
use ios_webkit_debug_proxy_r.Base.Dict
use ios_webkit_debug_proxy_r.Base.Dict.Laws.{get-insert, get-remove, IsUniq-insert, IsUniq-remove}
use ios_webkit_debug_proxy_r.Plist.{Plist}
use ios_webkit_debug_proxy_r.Proxy.State.{DeviceRuntime, PortRange, ProxyBridge, World}
use ios_webkit_debug_proxy_r.Proxy.Devices.{
  Outside, Inspector, update_device_list, first_free, allocate_port, used_ports, connect_inspector,
  new_runtime, store_device, connect_device, release, disconnect_device,
}
use ios_webkit_debug_proxy_r.Proxy.Pages.{entries, sort_by_key}
use ios_webkit_debug_proxy_r.Proxy.Invariant.{IsRuntime, IsWorld, shown}
use ios_webkit_debug_proxy_r.Proxy.Invariant.Runtimes.{Follows, IsWorld-Follows}
use ios_webkit_debug_proxy_r.Proxy.Invariant.Messages.{relist-IsWorld}

pub release-devices :
    (b : ProxyBridge) (r : DeviceRuntime) (w : World) → (release b r w).devices ≡ w.devices
unfolding release
release-devices b r w = ground arith

removed-Follows :
    {n : ℕ} (id : String) (w : World)
    → IsWorld n w
    → (j : String) (r' : DeviceRuntime) → Dict.get (Dict.remove w.devices id) j ≡ some r'
    → (r : DeviceRuntime) × (Dict.get w.devices j ≡ some r) × Follows n r r'
removed-Follows id w v j r' got =
    let kept : Dict.get w.devices j ≡ some r' = ground (arith, get-remove w.devices id j) in
    (r', kept, record { device_id = refl; port = refl; runtime = v.runtime j r' kept })

-- The device list is made anew, so it need not be right before.
removed-IsWorld :
    {n : ℕ} (b : ProxyBridge) (id : String) (w : World) (r : DeviceRuntime)
    → IsWorld n w
    → IsWorld n (update_device_list (release b r (record w { devices = Dict.remove w.devices id })))
unfolding update_device_list
removed-IsWorld {n} b id w r v =
    let left : World = record w { devices = Dict.remove w.devices id } in
    let same : (release b r left).devices ≡ Dict.remove w.devices id = release-devices b r left in
    IsWorld-Follows n w _ v (subst IsUniq (sym same) (IsUniq-remove w.devices id v.uniq))
      (λ j r' got. removed-Follows id w v j r' (ap (λ m. Dict.get m j) (sym same) ∙ got)) refl

pub disconnect_device-IsWorld :
    {n : ℕ} (b : ProxyBridge) (id : String) (w : World)
    → IsWorld n w
    → IsWorld n (disconnect_device b id w)
unfolding disconnect_device
disconnect_device-IsWorld {n} b id w v =
    option_rule (IsWorld n) (Dict.get w.devices id) _ _ (λ _. relist-IsWorld w v)
      (λ r _. removed-IsWorld b id w r v)

-- The port that is found is in the range and used by no device.
first_free_sound :
    (count p : ℕ) (used : List ℕ) (q : ℕ)
    → first_free count p used ≡ some q
    → (p ≤ q) × (q < p + count) × (Dict.contains used q ≡ false)
unfolding first_free
first_free_sound zero p used q h = absurd (cc)
first_free_sound (suc count) p used q h = ground (arith, first_free_sound count (suc p) used q)

contains-used_ports :
    (devices : HashMap String DeviceRuntime) (id : String) (r : DeviceRuntime)
    → Dict.get devices id ≡ some r
    → Dict.contains (used_ports devices) r.port ≡ true
unfolding Dict.get Dict.contains
contains-used_ports [] id r got = absurd (cc)
contains-used_ports ((k, x) ∷ devices) id r got = ground (arith, contains-used_ports devices id r)

new_runtime-IsRuntime :
    (n : ℕ) (b : ProxyBridge) (id : String) (port : ℕ) (i : Inspector) (o : Outside)
    → IsRuntime n (new_runtime b id port i o)
unfolding new_runtime entries sort_by_key Dict.get
new_runtime-IsRuntime n b id port i o = record {
  is_table = record {
    uniq = tt;
    numbered = λ k q h. absurd (cc);
    distinct = λ k j q q' h. absurd (cc);
  };
  bound = omega arith;
  shared_connected = refl;
  shared_pages = refl;
  attached = λ k q h. absurd (cc);
  clients = λ ws_id. refl;
}

-- What is found in a table with a device added is that device or stood there before.
inserted :
    (devices : HashMap String DeviceRuntime) (id j : String) (r r' : DeviceRuntime)
    → Dict.get (Dict.insert devices id r) j ≡ some r'
    → ((id ≡ j) × (r ≡ r')) ⊎ (Dict.get devices j ≡ some r')
inserted devices id j r r' got = elim (Bool-cases (id == j)) [
  | inl same ↦ inl (ground (arith, get-insert devices id j r, str_eq_iff id j))
  | inr other ↦ inr (ground (arith, get-insert devices id j r))
]

-- A device is stored under a port that no other device has.
stored-IsWorld :
    {n : ℕ} (id : String) (r : DeviceRuntime) (w w' : World)
    → IsWorld n w
    → w'.devices ≡ Dict.insert w.devices id r
    → w'.device_list ≡ shown w'.devices
    → r.device_id ≡ some id
    → IsRuntime n r
    → Dict.contains (used_ports w.devices) r.port ≡ false
    → IsWorld n w'
stored-IsWorld {n} id r w w' v stored listed own v' unused =
    let found : (j : String) (s : DeviceRuntime)
        → Dict.get w'.devices j ≡ some s
        → ((id ≡ j) × (r ≡ s)) ⊎ (Dict.get w.devices j ≡ some s) =
      λ j s got. inserted w.devices id j r s (ap (λ m. Dict.get m j) (sym stored) ∙ got) in
    let taken : (j : String) (s : DeviceRuntime)
        → Dict.get w.devices j ≡ some s
        → s.port ≡ r.port
        → ⊥ =
      λ j s got same. ground (
        arith,
        contains-used_ports w.devices j s got,
        ap (Dict.contains (used_ports w.devices)) same,
        unused,
      ) in
    record {
      uniq = subst IsUniq (sym stored) (IsUniq-insert w.devices id r v.uniq);
      keyed = λ j s got. elim (found j s got) [
        | inl (same, eq) ↦ subst (λ x. x.device_id ≡ some j) eq (own ∙ ap some same)
        | inr before ↦ v.keyed j s before
      ];
      runtime = λ j s got. elim (found j s got) [
        | inl (same, eq) ↦ subst (IsRuntime n) eq v'
        | inr before ↦ v.runtime j s before
      ];
      ports = λ j k s t gs gt same. elim (found j s gs) [
        | inl (js, rs) ↦ elim (found k t gt) [
          | inl (kt, rt) ↦ sym js ∙ kt
          | inr old ↦ absurd (taken k t old (sym same ∙ sym (ap (λ x. x.port) rs)))
        ]
        | inr old ↦ elim (found k t gt) [
          | inl (kt, rt) ↦ absurd (taken j s old (same ∙ sym (ap (λ x. x.port) rt)))
          | inr before ↦ v.ports j k s t old before same
        ]
      ];
      listed = listed;
    }

allocate_port_sound :
    (range : PortRange) (used : List ℕ) (o : Outside) (port : ℕ)
    → allocate_port (some range) used o ≡ some port
    → Dict.contains used port ≡ false
unfolding allocate_port
allocate_port_sound range used o port h =
    elim (Option-cases (first_free (range.end - range.start) range.start used)) [
      | inl exhausted ↦ absurd (cc)
      | inr (q, found) ↦
          ground (arith, (first_free_sound (range.end - range.start) range.start used q found).2)
    ]

module _ {n : ℕ} (p : Plist) (b : ProxyBridge) (id : String) (o : Outside) (w : World) where
  store_device-IsWorld :
      (port : ℕ) (i : Inspector)
      → IsWorld n w
      → Dict.contains (used_ports w.devices) port ≡ false
      → IsWorld n (store_device p b id port i o w)
  unfolding store_device update_device_list new_runtime
  store_device-IsWorld port i v unused =
      stored-IsWorld id (new_runtime b id port i o) w (store_device p b id port i o w) v refl refl
        refl (new_runtime-IsRuntime n b id port i o) unused

  pub connect_device-IsWorld :
      (range : PortRange)
      → b.device_ports ≡ some range
      → IsWorld n w
      → IsWorld n (connect_device p b id o w)
  unfolding connect_device
  connect_device-IsWorld range ranged v =
      if_rule (IsWorld n) (Dict.contains_key w.devices id) _ _ (λ _. v)
        (λ _.
          option_rule (IsWorld n) (allocate_port b.device_ports (used_ports w.devices) o) _ _
            (λ _. v)
            (λ port allocated.
              option_rule (IsWorld n) (connect_inspector b id o) _ _ (λ _. v)
                (λ i _. store_device-IsWorld port i v (
                  allocate_port_sound range (used_ports w.devices) o port (
                    ap (λ r. allocate_port r (used_ports w.devices) o) (sym ranged) ∙ allocated)))))
