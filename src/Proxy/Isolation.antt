-- ===== src/Proxy/Isolation.antt =====
-- An event of one device leaves every other device as it is.
pub mod Tables
pub use Tables.{Spares}
use ios_webkit_debug_proxy_r.Base.{
  ℕ, String, ◌≡◌, refl, ap, ◌∙◌, false, not, List, [], ◌∷◌, ◌==◌, string_eq, is_empty, Bytes,
  option_rule, if_rule,
}
use ios_webkit_debug_proxy_r.Base.Dict.{HashMap}
use ios_webkit_debug_proxy_r.Base.Dict
use ios_webkit_debug_proxy_r.Base.Dict.Laws.{get-modify, get-insert, get-remove}
use ios_webkit_debug_proxy_r.Error.{Result, ok, err}
use ios_webkit_debug_proxy_r.HttpServer.{WsToWiMessage, WiToWsRegistration}
use ios_webkit_debug_proxy_r.Plist.{Plist}
use ios_webkit_debug_proxy_r.Rpc.{
  RpcApp, RpcPage, RpcSender, RpcMessage, report_setup, report_connected_application_list,
  application_connected, application_disconnected, application_sent_listing, application_sent_data,
  application_updated, unknown,
}
use ios_webkit_debug_proxy_r.Rpc.Parse.{parse_rpc_message}
use ios_webkit_debug_proxy_r.WebInspector.{recv_plist}
use ios_webkit_debug_proxy_r.Proxy.State.{DeviceRuntime, ProxyBridge, World, Effect}
use ios_webkit_debug_proxy_r.Proxy.Pages.{sync_pages}
use ios_webkit_debug_proxy_r.Proxy.Devices.{
  Outside, update_device_list, notify, notify_device_connected, notify_page_list_changed,
  allocate_port, used_ports, connect_inspector, store_device, connect_device, disconnect_device,
  new_runtime,
}
use ios_webkit_debug_proxy_r.Proxy.Sockets.{
  find_page, send_rpc, stop_devtools, attach_client, current_client, send_forward_socket_setup,
  forward_data, remove_client, handle_ws_message, handle_ws_registration, handle_app_data,
}
use ios_webkit_debug_proxy_r.Proxy.Messages.{
  set_connected, handle_report_setup, connect_once, publish_pages, remove_app_id,
  handle_page_listing, send_forward_get_listing, add_app_id, add_apps, handle_rpc_message,
  handle_wi_event,
}
use ios_webkit_debug_proxy_r.Proxy.Invariant.Sockets.{send_rpc_effects}
use ios_webkit_debug_proxy_r.Proxy.Invariant.Devices.{release-devices}
use ios_webkit_debug_proxy_r.Proxy.Run.{
  Event, attached, detached, wi_event, ws_message, ws_registration, step,
}
use ios_webkit_debug_proxy_r.Proxy.Isolation.Tables.{
  modify-Spares, notify-Spares, connected-Spares, publish-Spares, report_setup-Spares,
  connect_once-Spares, remove_app_id-Spares, page_listing-Spares, registration-Spares,
  app_data-Spares, connect-Spares, disconnect-Spares,
}

module _ (j id : String) (other : (id == j) ≡ false) where
  module _ (p : Plist) where
    send_rpc-Spares :
        (r : DeviceRuntime) (build : RpcSender → Bytes) (w : World)
        → Spares j w (send_rpc p r build w)
    send_rpc-Spares r build w =
        ap (λ (u : World). Dict.get u.devices j) (send_rpc_effects p r build w)

    stop_devtools-Spares : (n : ℕ) (w : World) → Spares j w (stop_devtools p id n w)
    unfolding stop_devtools
    stop_devtools-Spares n w =
        option_rule (Spares j w) (Dict.get w.devices id) _ _ (λ _. refl)
          λ r _.
            option_rule (Spares j w) (find_page n r.pages) _ _ (λ _. refl)
              λ q _.
                option_rule (Spares j w) q.sender_id _ _ (λ _. refl)
                  λ s _. modify-Spares j id other _ (λ _. _) ∙ send_rpc-Spares r _ w

    attach_client-Spares :
        (ws_id : String) (n : ℕ) (w : World) → Spares j w (attach_client p id ws_id n w)
    unfolding attach_client
    attach_client-Spares ws_id n w =
        option_rule (Spares j w) (Dict.get w.devices id) _ _ (λ _. refl)
          λ r _.
            option_rule (Spares j w) (find_page n r.pages) _ _ (λ _. refl)
              λ q _. send_rpc-Spares r _ _ ∙ modify-Spares j id other w.devices (λ _. _)

    socket_setup-Spares :
        (ws_id : String) (n : ℕ) (w : World) → Spares j w (send_forward_socket_setup p id ws_id n w)
    unfolding send_forward_socket_setup
    socket_setup-Spares ws_id n w =
        attach_client-Spares ws_id n _
        ∙ option_rule (Spares j w) (current_client p id n w) _ _ (λ _. refl)
            λ old_id _.
              if_rule (Spares j w) (not (old_id == ws_id)) _ _ (λ _. stop_devtools-Spares n w)
                (λ _. refl)

    forward_data-Spares : (msg : WsToWiMessage) (w : World) → Spares j w (forward_data p id msg w)
    unfolding forward_data
    forward_data-Spares msg w =
        option_rule (Spares j w) (Dict.get w.devices id) _ _ (λ _. refl)
          λ r _.
            option_rule (Spares j w) (find_page msg.page_num r.pages) _ _ (λ _. refl)
              (λ q _. send_rpc-Spares r _ w)

    remove_client-Spares : (ws_id : String) (w : World) → Spares j w (remove_client p id ws_id w)
    unfolding remove_client
    remove_client-Spares ws_id w =
        option_rule (Spares j w) (Dict.get w.devices id) _ _ (λ _. refl)
          (λ r _. modify-Spares j id other w.devices (λ _. _))

    ws_message-Spares :
        (msg : WsToWiMessage) (w : World) → Spares j w (handle_ws_message p id msg w)
    unfolding handle_ws_message
    ws_message-Spares msg w =
        if_rule (Spares j w) msg.is_close _ _
          (λ _. remove_client-Spares msg.ws_id _ ∙ stop_devtools-Spares msg.page_num w)
          λ _.
            if_rule (Spares j w) (is_empty msg.payload) _ _
              (λ _. socket_setup-Spares msg.ws_id msg.page_num w) (λ _. forward_data-Spares msg w)

    get_listing-Spares :
        (app_id : String) (w : World) → Spares j w (send_forward_get_listing p id app_id w)
    unfolding send_forward_get_listing
    get_listing-Spares app_id w =
        option_rule (Spares j w) (Dict.get w.devices id) _ _ (λ _. refl)
          (λ r _. send_rpc-Spares r _ w)

    add_app_id-Spares : (app_id : String) (w : World) → Spares j w (add_app_id p id app_id w)
    unfolding add_app_id
    add_app_id-Spares app_id w =
        option_rule (Spares j w) (Dict.get w.devices id) _ _ (λ _. refl)
          λ r _.
            if_rule (Spares j w) (Dict.contains_key r.app_ids app_id) _ _ (λ _. refl)
              (λ _. get_listing-Spares app_id _ ∙ modify-Spares j id other w.devices (λ _. _))

    add_apps-Spares : (apps : List RpcApp) (w : World) → Spares j w (add_apps p id apps w)
    unfolding add_apps
    add_apps-Spares [] w = refl
    add_apps-Spares (app ∷ apps) w =
        add_apps-Spares apps _ ∙ (modify-Spares j id other _ _ ∙ add_app_id-Spares app.app_id w)

    rpc_message-Spares :
        (b : ProxyBridge) (msg : RpcMessage) (w : World)
        → Spares j w (handle_rpc_message p b id msg w)
    unfolding handle_rpc_message
    rpc_message-Spares b report_setup w = report_setup-Spares j id other b w
    rpc_message-Spares b (report_connected_application_list apps) w =
        add_apps-Spares apps _ ∙ connect_once-Spares j id other b w
    rpc_message-Spares b (application_connected app) w =
        add_app_id-Spares app.app_id _ ∙ modify-Spares j id other w.devices _
    rpc_message-Spares b (application_disconnected app) w =
        remove_app_id-Spares j id other b app.app_id w
    rpc_message-Spares b (application_sent_listing app_id pages) w =
        page_listing-Spares j id other b app_id pages w
    rpc_message-Spares b (application_sent_data app_id dest_id bytes) w =
        app_data-Spares j id other dest_id bytes w
    rpc_message-Spares b (application_updated app_id dest_id) w = add_app_id-Spares dest_id w
    rpc_message-Spares b (unknown selector) w = refl

    received-Spares :
        (b : ProxyBridge) (r : Result RpcMessage) (w : World)
        → Spares j w (elim r [ ok msg ↦ handle_rpc_message p b id msg w | err e ↦ w ])
    received-Spares b (ok msg) w = rpc_message-Spares b msg w
    received-Spares b (err e) w = refl

module _ (p : Plist) where
  -- The device that an event is of.
  abbrev pub target : Event p → String
  target (attached id o) = id
  target (detached id) = id
  target (wi_event id event) = id
  target (ws_message id msg) = id
  target (ws_registration id reg) = id

  -- An event leaves each device that it is not of as it was: its runtime, with its pages, clients
  -- and shared state, or that it is absent.
  pub step-Spares :
      (b : ProxyBridge) (w : World) (event : Event p) (j : String)
      → (target event == j) ≡ false
      → Spares j w (step p b w event)
  unfolding step handle_wi_event
  step-Spares b w (attached id o) j other = connect-Spares j id other p b o w
  step-Spares b w (detached id) j other = disconnect-Spares j id other b w
  step-Spares b w (wi_event id (recv_plist rpc_dict)) j other =
      received-Spares j id other p b (parse_rpc_message p rpc_dict) w
  step-Spares b w (ws_message id msg) j other = ws_message-Spares j id other p msg w
  step-Spares b w (ws_registration id reg) j other = registration-Spares j id other reg w
