-- ===== src/Proxy/State.antt =====
-- src/proxy.rs: the records of the proxy. Channels and cancellation tokens are numbers. What the
-- handlers do to the world outside is a log of effects, oldest first.
use ios_webkit_debug_proxy_r.Base.{ℕ, String, Bool, Option, List, [], ◌∷◌, ◌++◌, Bytes}
use ios_webkit_debug_proxy_r.Base.Dict.{HashMap}
use ios_webkit_debug_proxy_r.Device.{DeviceInfo, DebuggablePageInfo, PageType}
use ios_webkit_debug_proxy_r.HttpServer.{DevicePortState}
use ios_webkit_debug_proxy_r.Rpc.{RpcApp, RpcSender}
use ios_webkit_debug_proxy_r.WebInspector.{WebInspectorCodec}

pub record PageInfo : Type 0 where
  pub page_num : ℕ
  pub page_type : PageType
  pub app_id : String
  pub page_id : ℕ
  pub connection_id : Option String
  pub title : Option String
  pub url : Option String
  pub sender_id : Option String
  pub ws_client_id : Option String

pub record WsClientInfo : Type 0 where
  pub page_num : ℕ
  pub sender_id : String

-- The handle is given by the number of its write channel.
pub record WebInspectorHandle : Type 0 where
  pub write_tx : ℕ

pub record DeviceRuntime : Type 0 where
  pub port : ℕ
  pub device_id : Option String
  pub device_name : Option String
  pub device_os_version : ℕ
  pub connected : Bool
  pub wi_handle : Option WebInspectorHandle
  pub wi_codec : Option WebInspectorCodec
  pub rpc_sender : Option RpcSender
  pub connection_id : Option String
  pub app_ids : HashMap String Bool
  pub current_app : Option RpcApp
  pub pages : HashMap ℕ PageInfo
  pub max_page_num : ℕ
  pub shared_state : DevicePortState
  pub server_cancel : Option ℕ
  pub wi_cancel : Option ℕ
  pub ws_clients : HashMap String WsClientInfo
  pub ws_client_txs : HashMap String ℕ

-- `Range<u16>`: the end is excluded.
pub record PortRange : Type 0 where
  pub start : ℕ
  pub end : ℕ

pub record HttpServiceConfig : Type 0 where
  pub device_list_port : ℕ
  pub frontend : Option String

-- `has_listener` says if there is a `DeviceListener`.
pub record ProxyBridge : Type 0 where
  pub device_ports : Option PortRange
  pub http_service_config : Option HttpServiceConfig
  pub sim_wi_socket_addr : String
  pub has_listener : Bool

pub data Effect : Type 0 where
  -- Packets offered to a device's write channel, by `send_plist`.
  sends : ℕ → List Bytes → Effect
  -- Bytes sent to a WebSocket client's channel.
  forwards : ℕ → Bytes → Effect
  -- The calls of the `DeviceListener`.
  device_connected : DeviceInfo → Effect
  device_disconnected : DeviceInfo → Effect
  device_page_list_changed : DeviceInfo → List DebuggablePageInfo → Effect
  -- A token that is cancelled.
  cancels : ℕ → Effect
  -- A server on a port; with or without the pages beside the WebSocket.
  serves : ℕ → Bool → Effect
  -- The server of the device list on its port.
  serves_list : ℕ → Effect

pub record World : Type 0 where
  pub devices : HashMap String DeviceRuntime
  -- The devices of the shared `DeviceListState`.
  pub device_list : List DeviceInfo
  pub effects : List Effect

abbrev pub emit : World → Effect → World
emit w effect = record w { effects = w.effects ++ effect ∷ [] }
