-- ===== src/Main.antt =====
-- src/main.rs: from the arguments of the command line to the bridge that is run.
pub mod Ports
pub mod Udid
pub mod Tests
use ios_webkit_debug_proxy_r.Base.{
  ℕ, ◌+◌, ◌-◌, ◌%◌, ◌^◌, String, Bool, true, false, not, ◌&&◌, Option, none, some, List, [], ◌∷◌,
  ◌++◌, ◌==◌, nat_eq, any, if◌then◌else◌, Bytes, ascii,
}
use ios_webkit_debug_proxy_r.Base.Int.{ℤ, pos, negsuc, ltb_ℤ, leb_ℤ}
use ios_webkit_debug_proxy_r.PortConfig.{
  PortConfigEntry, Captures, Added, add_line, add_file, wildcard, Selected, select_port,
}
use ios_webkit_debug_proxy_r.Proxy.State.{PortRange, HttpServiceConfig, ProxyBridge}

-- The options of the command line, as `clap` parses them.
pub record Args : Type 0 where
  pub udid : Option Bytes
  pub config : Option Bytes
  pub frontend : Option String
  pub no_frontend : Bool
  pub sim_wi_socket_addr : Option String

abbrev pub unwrap_or {ℓ} : {A : Type ℓ} → Option A → A → A
unwrap_or (some a) d = a
unwrap_or none d = d

abbrev pub default_config : Bytes
default_config = ascii "null:9221,:9222-9322"

abbrev pub default_frontend : String
default_frontend = "http://chrome-devtools-frontend.appspot.com/static/27.0.1453.93/devtools.html"

abbrev pub default_sim_wi_socket_addr : String
default_sim_wi_socket_addr = "127.0.0.1:27753"

-- `ProxyBridge::new`
unfoldable pub new_bridge :
    Option PortRange → Option HttpServiceConfig → Option String → Bool → ProxyBridge
new_bridge device_ports http_service_config sim_wi_socket_addr has_listener = record {
  device_ports = device_ports;
  http_service_config = http_service_config;
  sim_wi_socket_addr = unwrap_or sim_wi_socket_addr default_sim_wi_socket_addr;
  has_listener = has_listener;
}

-- `as u16`
abbrev pub as_u16 : ℤ → ℕ
as_u16 (pos n) = n % 2 ^ 16
as_u16 (negsuc n) = 2 ^ 16 - 1 - n % 2 ^ 16

-- The port of the device list, -1 or less than 1 if there is none.
unfoldable pub list_port_of : List PortConfigEntry → ℤ
list_port_of entries =
    let s : Selected = select_port entries none (negsuc 0) in
    if s.is_ok && ltb_ℤ s.current_port (pos 0) && ltb_ℤ (pos 0) s.min_port
    then s.min_port
    else s.current_port

-- The range excludes its end; the sum of a `u16` wraps, as in a release build.
unfoldable pub device_ports_of : List PortConfigEntry → Option PortRange
device_ports_of entries =
    let s : Selected = select_port entries (some wildcard) (negsuc 0) in
    if ltb_ℤ (pos 0) s.min_port && leb_ℤ s.min_port s.max_port
    then some (record { start = as_u16 s.min_port; end = (as_u16 s.max_port + 1) % 2 ^ 16 })
    else none

unfoldable pub http_service_config_of :
    List PortConfigEntry → Option String → Option HttpServiceConfig
http_service_config_of entries frontend =
    if ltb_ℤ (pos 0) (list_port_of entries)
    then some (record { device_list_port = as_u16 (list_port_of entries); frontend = frontend })
    else none

-- `is_udid` and `captures` are the `regex` crate's matches of the two patterns; `read_file` gives the
-- lines of a file that can be opened.
module _ (is_udid : Bytes → Bool) (captures : Bytes → Option Captures)
    (read_file : Bytes → Option (List (Option Bytes))) where
  -- The text of the configuration; `none` if the program exits with status 2.
  unfoldable pub config_of : Args → Option Bytes
  config_of args = elim args.udid [
    | some udid ↦
        if not (is_udid udid)
        then none
        else some (if any (λ c. c == b':') udid then udid else udid ++ b':' ∷ [])
    | none ↦ some (unwrap_or args.config default_config)
  ]

  -- A configuration that is not a line of rules is the name of a file.
  unfoldable pub entries_of_config : Bytes → List PortConfigEntry
  entries_of_config config =
      let added : Added = add_line captures [] config in
      elim added.invalid [
        | none ↦ added.entries
        | some at ↦ elim (read_file config) [
          | some lines ↦ (add_file captures [] lines).0
          | none ↦ []
        ]
      ]

  unfoldable pub frontend_of : Args → Option String
  frontend_of args =
      if args.no_frontend then none else some (unwrap_or args.frontend default_frontend)

  -- The bridge that `main` runs.
  unfoldable pub bridge_of : Args → Option ProxyBridge
  bridge_of args = elim (config_of args) [
    | none ↦ none
    | some config ↦
        let entries : List PortConfigEntry = entries_of_config config in
        some (
          new_bridge (device_ports_of entries) (http_service_config_of entries (frontend_of args))
            args.sim_wi_socket_addr false)
  ]
