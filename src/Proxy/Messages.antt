-- ===== src/Proxy/Messages.antt =====
-- src/proxy.rs: the messages of a device. handle_wi_event, handle_rpc_message, add_app_id,
-- remove_app_id, send_forward_get_listing and handle_page_listing.
use ios_webkit_debug_proxy_r.Base.{
  String, true, not, none, some, List, [], ◌∷◌, string_eq, if◌then◌else◌,
}
use ios_webkit_debug_proxy_r.Base.Dict
use ios_webkit_debug_proxy_r.Error.{ok, err}
use ios_webkit_debug_proxy_r.Plist.{Plist}
use ios_webkit_debug_proxy_r.Rpc.{
  RpcApp, RpcPage, RpcMessage, report_setup, report_connected_application_list,
  application_connected, application_disconnected, application_sent_listing, application_sent_data,
  application_updated, unknown, build_forward_get_listing,
}
use ios_webkit_debug_proxy_r.Rpc.Parse.{parse_rpc_message}
use ios_webkit_debug_proxy_r.WebInspector.{WiEvent, recv_plist}
use ios_webkit_debug_proxy_r.Proxy.State.{DeviceRuntime, ProxyBridge, World}
use ios_webkit_debug_proxy_r.Proxy.Pages.{PageTable, apply_listing, remove_app_pages, sync_pages}
use ios_webkit_debug_proxy_r.Proxy.Devices.{
  update_device_list, notify_device_connected, notify_page_list_changed,
}
use ios_webkit_debug_proxy_r.Proxy.Sockets.{set_runtime, send_rpc, handle_app_data}

-- `runtime.connected = true` and `state.connected = true`.
abbrev pub set_connected : DeviceRuntime → DeviceRuntime
set_connected r = record r {
  connected = true;
  shared_state = record shared_state { connected = true };
}
  where
    open r use {shared_state}

unfoldable pub handle_report_setup : ProxyBridge → String → World → World
handle_report_setup b device_id w =
    notify_device_connected b device_id
      (update_device_list (record w { devices = Dict.modify w.devices device_id set_connected }))

-- The first half of the arm for the application list: a device that was not connected now is.
unfoldable pub connect_once : ProxyBridge → String → World → World
connect_once b device_id w = elim (Dict.get w.devices device_id) [
  | none ↦ w
  | some runtime ↦
      if not runtime.connected
      then notify_device_connected b device_id
          (update_device_list (set_runtime w device_id (set_connected runtime)))
      else w
]

abbrev pub set_current_app : String → RpcApp → World → World
set_current_app device_id app w = record w {
  devices =
      Dict.modify w.devices device_id (λ (r : DeviceRuntime). record r { current_app = some app });
}

-- After the page table has changed: the shared list is made anew and the listener told.
unfoldable pub publish_pages : ProxyBridge → String → DeviceRuntime → World → World
publish_pages b device_id r w =
    let synced : DeviceRuntime = sync_pages r in
    notify_page_list_changed b synced (set_runtime w device_id synced)

unfoldable pub remove_app_id : ProxyBridge → String → String → World → World
remove_app_id b device_id app_id w = elim (Dict.get w.devices device_id) [
  | none ↦ w
  | some runtime ↦
      publish_pages b device_id
        (record runtime {
          app_ids = Dict.remove runtime.app_ids app_id;
          pages = remove_app_pages app_id runtime.pages;
        })
        w
]

abbrev pub table : DeviceRuntime → PageTable
table r = record { pages = r.pages; max_page_num = r.max_page_num }

abbrev pub with_table : DeviceRuntime → PageTable → DeviceRuntime
with_table r t = record r { pages = t.pages; max_page_num = t.max_page_num }

unfoldable pub handle_page_listing : ProxyBridge → String → String → List RpcPage → World → World
handle_page_listing b device_id app_id pages w = elim (Dict.get w.devices device_id) [
  | none ↦ w
  | some runtime ↦
      publish_pages b device_id (with_table runtime (apply_listing app_id pages (table runtime))) w
]

module _ (p : Plist) where
  unfoldable pub send_forward_get_listing : String → String → World → World
  send_forward_get_listing device_id app_id w = elim (Dict.get w.devices device_id) [
    | none ↦ w
    | some runtime ↦ send_rpc p runtime (λ s. build_forward_get_listing p s app_id) w
  ]

  unfoldable pub add_app_id : String → String → World → World
  add_app_id device_id app_id w = elim (Dict.get w.devices device_id) [
    | none ↦ w
    | some runtime ↦
        if Dict.contains_key runtime.app_ids app_id
        then w
        else send_forward_get_listing device_id app_id (
            set_runtime w device_id
              (record runtime { app_ids = Dict.insert runtime.app_ids app_id true }))
  ]

  unfoldable pub add_apps : String → List RpcApp → World → World
  add_apps device_id [] w = w
  add_apps device_id (app ∷ apps) w =
      add_apps device_id apps (set_current_app device_id app (add_app_id device_id app.app_id w))

  unfoldable pub handle_rpc_message : ProxyBridge → String → RpcMessage → World → World
  handle_rpc_message b device_id report_setup w = handle_report_setup b device_id w
  handle_rpc_message b device_id (report_connected_application_list apps) w =
      add_apps device_id apps (connect_once b device_id w)
  handle_rpc_message b device_id (application_connected app) w =
      add_app_id device_id app.app_id (set_current_app device_id app w)
  handle_rpc_message b device_id (application_disconnected app) w =
      remove_app_id b device_id app.app_id w
  handle_rpc_message b device_id (application_sent_listing app_id pages) w =
      handle_page_listing b device_id app_id pages w
  handle_rpc_message b device_id (application_sent_data app_id dest_id bytes) w =
      handle_app_data device_id dest_id bytes w
  handle_rpc_message b device_id (application_updated app_id dest_id) w =
      add_app_id device_id dest_id w
  handle_rpc_message b device_id (unknown selector) w = w

  -- A message that cannot be parsed is dropped.
  unfoldable pub handle_wi_event : ProxyBridge → String → WiEvent p → World → World
  handle_wi_event b device_id (recv_plist rpc_dict) w = elim (parse_rpc_message p rpc_dict) [
    | ok msg ↦ handle_rpc_message b device_id msg w
    | err e ↦ w
  ]
