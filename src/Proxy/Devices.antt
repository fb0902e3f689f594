-- ===== src/Proxy/Devices.antt =====
-- src/proxy.rs: the device table. connect_device, disconnect_device, update_device_list and the
-- notices to the listener. What a call finds outside is an `Outside`.
pub mod Ports
pub mod Partials
use mathlib.Core.Option
use Prim.Native.String.{◌++◌ as concat}
use ios_webkit_debug_proxy_r.Base.{
  ℕ, zero, suc, ◌+◌, ◌-◌, String, Bool, true, false, not, ◌&&◌, Option, none, some, List, [], ◌∷◌,
  ◌++◌, map, ◌==◌, nat_eq, string_eq, ltb, if◌then◌else◌, filter,
}
use ios_webkit_debug_proxy_r.Base.Decimal.{to_string}
use ios_webkit_debug_proxy_r.Base.Dict.{HashMap, values}
use ios_webkit_debug_proxy_r.Base.Dict
use ios_webkit_debug_proxy_r.Device.{DeviceInfo, DebuggablePageInfo}
use ios_webkit_debug_proxy_r.HttpServer.{DevicePortState}
use ios_webkit_debug_proxy_r.Plist.{Plist}
use ios_webkit_debug_proxy_r.Rpc.{RpcSender, build_report_identifier}
use ios_webkit_debug_proxy_r.WebInspector.{WebInspectorCodec, new_codec, encode_plist}
use ios_webkit_debug_proxy_r.Proxy.State.{
  PageInfo, WebInspectorHandle, DeviceRuntime, PortRange, HttpServiceConfig, ProxyBridge, Effect,
  sends, device_connected, device_disconnected, device_page_list_changed, cancels, serves, World,
  emit,
}

abbrev pub unwrap_or {ℓ} : {A : Type ℓ} → Option A → A → A
unwrap_or (some a) d = a
unwrap_or none d = d

abbrev pub is_some {ℓ} : {A : Type ℓ} → Option A → Bool
is_some (some a) = true
is_some none = false

-- `DeviceInfo` of a runtime, as the listener and the device list get it.
abbrev pub device_info : DeviceRuntime → DeviceInfo
device_info r = record {
  device_id = unwrap_or r.device_id "";
  device_name = unwrap_or r.device_name "";
  device_os_version = r.device_os_version;
  port = r.port;
}

-- The runtimes that the device list shows.
abbrev pub is_shown : DeviceRuntime → Bool
is_shown d = d.connected && is_some d.device_id

unfoldable pub update_device_list : World → World
update_device_list w = record w {
  device_list = map device_info (filter is_shown (values w.devices));
}

-- A call of the listener, if there is one.
abbrev pub notify : ProxyBridge → World → Effect → World
notify b w effect = if b.has_listener then emit w effect else w

unfoldable pub notify_device_connected : ProxyBridge → String → World → World
notify_device_connected b device_id w = elim (Dict.get w.devices device_id) [
  | none ↦ w
  | some runtime ↦ notify b w (device_connected (device_info runtime))
]

abbrev pub page_info : DeviceRuntime → PageInfo → DebuggablePageInfo
page_info r p = record {
  device_id = unwrap_or r.device_id "";
  page_num = p.page_num;
  page_type = p.page_type;
  name = unwrap_or p.title "";
  web_socket_debugger_url =
      concat "ws://localhost:"
        (concat (to_string r.port) (concat "/devtools/page/" (to_string p.page_num)));
  device_os_version = r.device_os_version;
}

unfoldable pub notify_page_list_changed : ProxyBridge → DeviceRuntime → World → World
notify_page_list_changed b r w =
    notify b w (device_page_list_changed (device_info r) (map (page_info r) (values r.pages)))

-- `for p in start..start + count`: the first port that no device uses.
unfoldable pub first_free : ℕ → ℕ → List ℕ → Option ℕ
first_free zero p used = none
first_free (suc count) p used =
    let rest : Option ℕ = first_free count (suc p) used in
    if not (Dict.contains used p) then some p else rest

-- What `idevice_ext::connect_to_device` returns of a device that it reaches.
pub record DeviceConnection : Type 0 where
  pub stream : ℕ
  pub device_id : String
  pub device_name : String
  pub device_os_version : ℕ

-- What a call of `connect_device` meets: which ports can be bound, the port that the system assigns
-- (0 if it cannot be read), the two kinds of devices, and the names of what the call creates.
pub record Outside : Type 0 where
  pub can_bind : ℕ → Bool
  pub system_port : Option ℕ
  pub simulator : String → Option ℕ
  pub device : String → Option DeviceConnection
  pub uuid : String
  pub wi_token : ℕ
  pub server_token : ℕ
  pub ws_to_wi : ℕ
  pub ws_register : ℕ

-- The port that the listener is bound to; `none` if the call gives up.
unfoldable pub allocate_port : Option PortRange → List ℕ → Outside → Option ℕ
allocate_port (some range) used o = elim (first_free (range.end - range.start) range.start used) [
  | none ↦ none
  | some p ↦ if o.can_bind p then some p else none
]
allocate_port none used o = elim o.system_port [
  | none ↦ none
  | some port ↦ if port == 0 then none else some port
]

abbrev pub used_ports : HashMap String DeviceRuntime → List ℕ
used_ports devices = map (λ d. d.port) (values devices)

-- The four values that the connection to the WebInspector gives.
pub record Inspector : Type 0 where
  pub handle : WebInspectorHandle
  pub codec : WebInspectorCodec
  pub device_name : String
  pub device_os_version : ℕ

unfoldable pub connect_inspector : ProxyBridge → String → Outside → Option Inspector
connect_inspector b device_id o =
    if device_id == "SIMULATOR"
    then elim (o.simulator b.sim_wi_socket_addr) [
      | none ↦ none
      | some stream ↦ some (record {
        handle = record { write_tx = stream };
        codec = new_codec true false;
        device_name = "SIMULATOR";
        device_os_version = 0;
      })
    ]
    else elim (o.device device_id) [
      | none ↦ none
      | some conn ↦ some (record {
        handle = record { write_tx = conn.stream };
        codec = new_codec false (ltb conn.device_os_version 0xb0000);
        device_name = conn.device_name;
        device_os_version = conn.device_os_version;
      })
    ]

unfoldable pub new_runtime : ProxyBridge → String → ℕ → Inspector → Outside → DeviceRuntime
new_runtime b device_id port i o = record {
  port = port;
  device_id = some device_id;
  device_name = some i.device_name;
  device_os_version = i.device_os_version;
  connected = false;
  wi_handle = some i.handle;
  wi_codec = some i.codec;
  rpc_sender = some (record { connection_id = o.uuid });
  connection_id = some o.uuid;
  app_ids = [];
  current_app = none;
  pages = [];
  max_page_num = 0;
  shared_state = record {
    port = port;
    device_id = some device_id;
    device_name = some i.device_name;
    device_os_version = i.device_os_version;
    connected = false;
    pages = [];
    frontend = Option.bind b.http_service_config (λ (c : HttpServiceConfig). c.frontend);
    ws_to_wi_tx = some o.ws_to_wi;
    wi_to_ws_register_tx = some o.ws_register;
  };
  server_cancel = some o.server_token;
  wi_cancel = some o.wi_token;
  ws_clients = [];
  ws_client_txs = [];
}

module _ (p : Plist) where
  -- From the connection on: the server is started, the first message sent, the device stored.
  unfoldable pub store_device : ProxyBridge → String → ℕ → Inspector → Outside → World → World
  store_device b device_id port i o w =
      let served : World = emit w (serves port (is_some b.http_service_config)) in
      let sender : RpcSender = record { connection_id = o.uuid } in
      let sent : World =
        emit served
          (sends i.handle.write_tx (encode_plist p i.codec (build_report_identifier p sender))) in
      update_device_list (record sent {
        devices = Dict.insert w.devices device_id (new_runtime b device_id port i o);
      })

  unfoldable pub connect_device : ProxyBridge → String → Outside → World → World
  connect_device b device_id o w =
      if Dict.contains_key w.devices device_id
      then w
      else elim (allocate_port b.device_ports (used_ports w.devices) o) [
        | none ↦ w
        | some port ↦ elim (connect_inspector b device_id o) [
          | none ↦ w
          | some inspector ↦ store_device b device_id port inspector o w
        ]
      ]

abbrev pub cancel : World → Option ℕ → World
cancel w none = w
cancel w (some token) = emit w (cancels token)

-- The effects of a removal: the notice if the device was connected, then the two tokens.
unfoldable pub release : ProxyBridge → DeviceRuntime → World → World
release b r w =
    let notified : World =
      if r.connected then notify b w (device_disconnected (device_info r)) else w in
    cancel (cancel notified r.wi_cancel) r.server_cancel

unfoldable pub disconnect_device : ProxyBridge → String → World → World
disconnect_device b device_id w = elim (Dict.get w.devices device_id) [
  | none ↦ update_device_list w
  | some runtime ↦
      update_device_list
        (release b runtime (record w { devices = Dict.remove w.devices device_id }))
]
