-- ===== src/Proxy/Sockets.antt =====
-- src/proxy.rs: the WebSocket clients. stop_devtools, send_forward_socket_setup, handle_ws_message,
-- handle_ws_registration and handle_app_data.
pub mod Sessions
pub mod Delivery
pub mod Frames
pub mod Channels
use mathlib.Core.Option
use ios_webkit_debug_proxy_r.Base.{
  ℕ, String, Bool, true, false, not, Option, none, some, List, Bytes, ◌==◌, nat_eq, string_eq,
  if◌then◌else◌, find, is_empty,
}
use ios_webkit_debug_proxy_r.Base.Dict.{HashMap, values}
use ios_webkit_debug_proxy_r.Base.Dict
use ios_webkit_debug_proxy_r.HttpServer.{WsToWiMessage, WiToWsRegistration}
use ios_webkit_debug_proxy_r.Plist.{Plist}
use ios_webkit_debug_proxy_r.Rpc.{
  RpcSender, build_forward_socket_setup, build_forward_socket_data, build_forward_did_close,
}
use ios_webkit_debug_proxy_r.WebInspector.{WebInspectorCodec, encode_plist}
use ios_webkit_debug_proxy_r.Proxy.State.{
  PageInfo, WebInspectorHandle, DeviceRuntime, World, sends, forwards, emit,
}
use ios_webkit_debug_proxy_r.Proxy.Devices.{unwrap_or}

-- A write through `devices.get_mut(id)`.
abbrev pub set_runtime : World → String → DeviceRuntime → World
set_runtime w device_id r = record w { devices = Dict.modify w.devices device_id (λ _. r) }

abbrev pub has_number : ℕ → PageInfo → Bool
has_number page_num q = q.page_num == page_num

-- `pages.values().find(|p| p.page_num == page_num)`
abbrev pub find_page : ℕ → HashMap ℕ PageInfo → Option PageInfo
find_page page_num pages = find (has_number page_num) (values pages)

abbrev pub detach : PageInfo → PageInfo
detach q = record q { sender_id = none; ws_client_id = none }

abbrev pub attach : String → PageInfo → PageInfo
attach ws_id q = record q { sender_id = some ws_id; ws_client_id = some ws_id }

-- A write through `pages.values_mut().find(|p| p.page_num == page_num)`.
abbrev pub update_page : ℕ → (PageInfo → PageInfo) → DeviceRuntime → DeviceRuntime
update_page page_num f r = record r { pages = Dict.modify_first r.pages (has_number page_num) f }

module _ (p : Plist) where
  -- `if let (Some(rpc_sender), Some(handle), Some(codec)) = ..` and `send_plist`, whose error is
  -- only logged.
  send_with :
      Option RpcSender
      → Option WebInspectorHandle
      → Option WebInspectorCodec
      → (RpcSender → Bytes)
      → World
      → World
  send_with (some rpc_sender) (some handle) (some codec) build w =
      emit w (sends handle.write_tx (encode_plist p codec (build rpc_sender)))
  send_with _ _ _ build w = w

  unfoldable pub send_rpc : DeviceRuntime → (RpcSender → Bytes) → World → World
  unfolding send_with
  send_rpc r build w = send_with r.rpc_sender r.wi_handle r.wi_codec build w

  unfoldable pub stop_devtools : String → ℕ → World → World
  stop_devtools device_id page_num w = elim (Dict.get w.devices device_id) [
    | none ↦ w
    | some runtime ↦ elim (find_page page_num runtime.pages) [
      | none ↦ w
      | some page ↦ elim page.sender_id [
        | none ↦ w
        | some sender_id ↦
            set_runtime
              (send_rpc runtime
                (λ s. build_forward_did_close p s page.app_id page.page_id sender_id) w)
              device_id (update_page page_num detach runtime)
      ]
    ]
  ]

  -- The second half of `send_forward_socket_setup`: the page is taken over, and the device told.
  unfoldable pub attach_client : String → String → ℕ → World → World
  attach_client device_id ws_id page_num w = elim (Dict.get w.devices device_id) [
    | none ↦ w
    | some runtime ↦ elim (find_page page_num runtime.pages) [
      | none ↦ w
      | some page ↦
          send_rpc runtime (λ s. build_forward_socket_setup p s page.app_id page.page_id ws_id)
            (set_runtime w device_id (update_page page_num (attach ws_id) runtime))
    ]
  ]

  -- The client that debugs the page now.
  unfoldable pub current_client : String → ℕ → World → Option String
  current_client device_id page_num w =
      Option.bind (Dict.get w.devices device_id)
        λ runtime. Option.bind (find_page page_num runtime.pages) (λ q. q.ws_client_id)

  unfoldable pub send_forward_socket_setup : String → String → ℕ → World → World
  send_forward_socket_setup device_id ws_id page_num w =
      attach_client device_id ws_id page_num (elim (current_client device_id page_num w) [
        | none ↦ w
        | some old_id ↦ if not (old_id == ws_id) then stop_devtools device_id page_num w else w
      ])

  unfoldable pub forward_data : String → WsToWiMessage → World → World
  forward_data device_id msg w = elim (Dict.get w.devices device_id) [
    | none ↦ w
    | some runtime ↦ elim (find_page msg.page_num runtime.pages) [
      | none ↦ w
      | some page ↦
          send_rpc runtime
            (λ s.
              build_forward_socket_data p s page.app_id page.page_id
                (unwrap_or page.sender_id msg.ws_id) msg.payload)
            w
    ]
  ]

  unfoldable pub remove_client : String → String → World → World
  remove_client device_id ws_id w = elim (Dict.get w.devices device_id) [
    | none ↦ w
    | some runtime ↦ set_runtime w device_id (record runtime {
      ws_clients = Dict.remove runtime.ws_clients ws_id;
      ws_client_txs = Dict.remove runtime.ws_client_txs ws_id;
    })
  ]

  unfoldable pub handle_ws_message : String → WsToWiMessage → World → World
  handle_ws_message device_id msg w =
      if msg.is_close
      then remove_client device_id msg.ws_id (stop_devtools device_id msg.page_num w)
      else if is_empty msg.payload
      then send_forward_socket_setup device_id msg.ws_id msg.page_num w
      else forward_data device_id msg w

unfoldable pub handle_ws_registration : String → WiToWsRegistration → World → World
handle_ws_registration device_id reg w = elim (Dict.get w.devices device_id) [
  | none ↦ w
  | some runtime ↦ set_runtime w device_id (record runtime {
    ws_clients =
        Dict.insert runtime.ws_clients reg.ws_id
          (record { page_num = reg.page_num; sender_id = reg.ws_id });
    ws_client_txs = Dict.insert runtime.ws_client_txs reg.ws_id reg.tx;
  })
]

-- The data goes to the client that the message names, and to no other.
unfoldable pub handle_app_data : String → String → Bytes → World → World
handle_app_data device_id dest_id bytes w = elim (Dict.get w.devices device_id) [
  | none ↦ w
  | some runtime ↦ elim (Dict.get runtime.ws_client_txs dest_id) [
    | none ↦ w
    | some tx ↦ emit w (forwards tx bytes)
  ]
]
