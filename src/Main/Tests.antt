-- ===== src/Main/Tests.antt =====
-- The command line at concrete values; the patterns are given by functions that know a few texts.
use mathlib.Core.Option
use ios_webkit_debug_proxy_r.Base.{
  ℕ, ◌≤◌, ◌<◌, ◌^◌, ◌≡◌, refl, Bool, true, false, Option, none, some, List, [], ◌∷◌, ◌++◌, Bytes,
  ascii, nat_eq, arith, if◌then◌else◌, leb, length, drop,
}
use ios_webkit_debug_proxy_r.Base.Dict
use ios_webkit_debug_proxy_r.Base.Int.{pos, parse_i32, number_of, digits_value}
use ios_webkit_debug_proxy_r.PortConfig.{
  PortConfigEntry, Captures, entry_of, wildcard, matches, select_port, eq_ignore_ascii_case,
  add_line, add_segments, add_segment, cut, count_while,
}
use ios_webkit_debug_proxy_r.Plist.Sample.{sample}
use ios_webkit_debug_proxy_r.Proxy.Devices.{Outside, allocate_port, connect_device, first_free}
use ios_webkit_debug_proxy_r.Proxy.State.{ProxyBridge, World}
use ios_webkit_debug_proxy_r.Main.{
  Args, default_frontend, new_bridge, device_ports_of, bridge_of, config_of, entries_of_config,
  http_service_config_of, list_port_of, frontend_of,
}
use ios_webkit_debug_proxy_r.Main.Ports.{Gives, allocate_port-Gives, connect_device-last_port}
use ios_webkit_debug_proxy_r.Main.Udid.{bridge_of-udid}

abbrev udid : Bytes
udid = ascii "0123456789abcdef0123456789abcdef01234567"

-- The rules that the pattern finds in three texts.
abbrev captures : Bytes → Option Captures
captures text =
    if leb 40 (length text)
    then some (record { device_id = some udid; min_port = none; max_port = none })
    else if leb 10 (length text)
    then some (record {
      device_id = none;
      min_port = some (ascii "9222");
      max_port = some (ascii "9322");
    })
    else some (record {
      device_id = some (ascii "null");
      min_port = some (ascii "9221");
      max_port = none;
    })

abbrev is_udid : Bytes → Bool
is_udid text = leb 25 (length text)

abbrev read_file : Bytes → Option (List (Option Bytes))
read_file name = none

abbrev no_args : Args
no_args = record {
  udid = none;
  config = none;
  frontend = none;
  no_frontend = false;
  sim_wi_socket_addr = none;
}

-- Without options: the device list is on 9221, the devices have the ports from 9222 to 9322.
default_bridge :
    bridge_of is_udid captures read_file no_args
    ≡ some (
        new_bridge
          (some (record { start = 9222; end = 9323 }))
          (some (record { device_list_port = 9221; frontend = some default_frontend }))
          none
          false)
unfolding bridge_of config_of entries_of_config add_line add_segments cut add_segment count_while
    entry_of device_ports_of http_service_config_of list_port_of frontend_of select_port matches
    eq_ignore_ascii_case parse_i32 number_of digits_value Option.bind
default_bridge = refl

abbrev rules : ℕ → List PortConfigEntry
rules last =
    record { device_id = none; min_port = pos 9221; max_port = pos 9221 }
    ∷ (record { device_id = some wildcard; min_port = pos 9222; max_port = pos last } ∷ [])

rules-Gives : (last : ℕ) → 9222 ≤ last → last < 2 ^ 16 → Gives (rules last) 9222 last
unfolding matches
rules-Gives last low high = record {
  rule = record { device_id = some wildcard; min_port = pos 9222; max_port = pos last };
  found = refl;
  min_port = refl;
  max_port = refl;
  positive = omega arith;
  ordered = low;
  fits = high;
}

abbrev outside : Outside
outside = record {
  can_bind = λ port. true;
  system_port = none;
  simulator = λ addr. none;
  device = λ id.
      some (record {
        stream = 3;
        device_id = id;
        device_name = "phone";
        device_os_version = 0x110000;
      });
  uuid = "c1";
  wi_token = 1;
  server_token = 2;
  ws_to_wi = 4;
  ws_register = 5;
}

allocate_port-Gives_example :
    (9222 ≤ 9223) × (9223 ≤ 9322) × (Dict.contains {K = ℕ} (9222 ∷ []) 9223 ≡ false)
unfolding allocate_port device_ports_of select_port matches first_free Dict.contains
allocate_port-Gives_example =
    allocate_port-Gives (rules 9322) 9222 9322 (9222 ∷ []) outside 9223
      (rules-Gives 9322 (omega arith) (omega arith)) refl

abbrev empty_world : World
empty_world = record { devices = []; device_list = []; effects = [] }

abbrev last_port_bridge : ProxyBridge
last_port_bridge = new_bridge (device_ports_of (rules 65535)) none none false

connect_device-last_port_example :
    connect_device sample last_port_bridge "d1" outside empty_world ≡ empty_world
unfolding new_bridge
connect_device-last_port_example =
    connect_device-last_port sample last_port_bridge (rules 65535) 9222 "d1" outside empty_world
      refl (rules-Gives 65535 (omega arith) (omega arith))

abbrev udid_args : Args
udid_args = record no_args { udid = some udid }

bridge_of-udid_example :
    bridge_of is_udid captures read_file udid_args ≡ some (new_bridge none none none false)
unfolding config_of
bridge_of-udid_example =
    bridge_of-udid is_udid captures read_file udid_args b'0' (drop 1 udid ++ b':' ∷ [])
      (record { device_id = some udid; min_port = none; max_port = none }) udid refl (ground arith)
      refl refl refl (omega arith)
