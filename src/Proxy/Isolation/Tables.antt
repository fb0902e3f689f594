-- ===== src/Proxy/Isolation/Tables.antt =====
-- What the handlers without messages to a device leave of the other devices.
use ios_webkit_debug_proxy_r.Base.{
  String, ◌≡◌, refl, ap, ◌∙◌, false, not, List, ◌==◌, string_eq, Bytes, option_rule, if_rule,
}
use ios_webkit_debug_proxy_r.Base.Dict.{HashMap}
use ios_webkit_debug_proxy_r.Base.Dict
use ios_webkit_debug_proxy_r.Base.Dict.Laws.{get-modify, get-insert, get-remove}
use ios_webkit_debug_proxy_r.HttpServer.{WiToWsRegistration}
use ios_webkit_debug_proxy_r.Plist.{Plist}
use ios_webkit_debug_proxy_r.Rpc.{RpcPage}
use ios_webkit_debug_proxy_r.Proxy.State.{DeviceRuntime, ProxyBridge, World, Effect}
use ios_webkit_debug_proxy_r.Proxy.Pages.{sync_pages}
use ios_webkit_debug_proxy_r.Proxy.Devices.{
  Outside, update_device_list, notify, notify_device_connected, notify_page_list_changed,
  allocate_port, used_ports, connect_inspector, store_device, connect_device, disconnect_device,
  new_runtime,
}
use ios_webkit_debug_proxy_r.Proxy.Sockets.{handle_ws_registration, handle_app_data}
use ios_webkit_debug_proxy_r.Proxy.Messages.{
  set_connected, handle_report_setup, connect_once, publish_pages, remove_app_id,
  handle_page_listing,
}
use ios_webkit_debug_proxy_r.Proxy.Invariant.Devices.{release-devices}

-- The device j has in the second world what it has in the first.
abbrev pub Spares : String → World → World → Type 0
Spares j w w' = Dict.get w'.devices j ≡ Dict.get w.devices j

module _ (j id : String) (other : (id == j) ≡ false) where
  pub modify-Spares :
      (devices : HashMap String DeviceRuntime) (f : DeviceRuntime → DeviceRuntime)
      → Dict.get (Dict.modify devices id f) j ≡ Dict.get devices j
  modify-Spares devices f = get-modify devices id j f ∙ rw other

  pub notify-Spares : (b : ProxyBridge) (w : World) (e : Effect) → Spares j w (notify b w e)
  notify-Spares b w e = if_rule (Spares j w) b.has_listener _ _ (λ _. refl) (λ _. refl)

  pub connected-Spares : (b : ProxyBridge) (w : World) → Spares j w (notify_device_connected b id w)
  unfolding notify_device_connected
  connected-Spares b w =
      option_rule (Spares j w) (Dict.get w.devices id) _ _ (λ _. refl) (λ r _. notify-Spares b w _)

  pub publish-Spares :
      (b : ProxyBridge) (r : DeviceRuntime) (w : World) → Spares j w (publish_pages b id r w)
  unfolding publish_pages notify_page_list_changed
  publish-Spares b r w = notify-Spares b _ _ ∙ modify-Spares w.devices (λ _. sync_pages r)

  pub report_setup-Spares : (b : ProxyBridge) (w : World) → Spares j w (handle_report_setup b id w)
  unfolding handle_report_setup update_device_list
  report_setup-Spares b w = connected-Spares b _ ∙ modify-Spares w.devices set_connected

  pub connect_once-Spares : (b : ProxyBridge) (w : World) → Spares j w (connect_once b id w)
  unfolding connect_once update_device_list
  connect_once-Spares b w =
      option_rule (Spares j w) (Dict.get w.devices id) _ _ (λ _. refl)
        λ r _.
          if_rule (Spares j w) (not r.connected) _ _
            (λ _. connected-Spares b _ ∙ modify-Spares w.devices (λ _. set_connected r)) (λ _. refl)

  pub remove_app_id-Spares :
      (b : ProxyBridge) (app_id : String) (w : World) → Spares j w (remove_app_id b id app_id w)
  unfolding remove_app_id
  remove_app_id-Spares b app_id w =
      option_rule (Spares j w) (Dict.get w.devices id) _ _ (λ _. refl) (λ r _. publish-Spares b _ w)

  pub page_listing-Spares :
      (b : ProxyBridge) (app_id : String) (pages : List RpcPage) (w : World)
      → Spares j w (handle_page_listing b id app_id pages w)
  unfolding handle_page_listing
  page_listing-Spares b app_id pages w =
      option_rule (Spares j w) (Dict.get w.devices id) _ _ (λ _. refl) (λ r _. publish-Spares b _ w)

  pub registration-Spares :
      (reg : WiToWsRegistration) (w : World) → Spares j w (handle_ws_registration id reg w)
  unfolding handle_ws_registration
  registration-Spares reg w =
      option_rule (Spares j w) (Dict.get w.devices id) _ _ (λ _. refl)
        (λ r _. modify-Spares w.devices (λ _. _))

  pub app_data-Spares :
      (dest_id : String) (bytes : Bytes) (w : World)
      → Spares j w (handle_app_data id dest_id bytes w)
  unfolding handle_app_data
  app_data-Spares dest_id bytes w =
      option_rule (Spares j w) (Dict.get w.devices id) _ _ (λ _. refl)
        λ r _.
          option_rule (Spares j w) (Dict.get r.ws_client_txs dest_id) _ _ (λ _. refl) (λ tx _. refl)

  pub connect-Spares :
      (p : Plist) (b : ProxyBridge) (o : Outside) (w : World)
      → Spares j w (connect_device p b id o w)
  unfolding connect_device store_device update_device_list
  connect-Spares p b o w =
      if_rule (Spares j w) (Dict.contains_key w.devices id) _ _ (λ _. refl)
        λ _.
          option_rule (Spares j w) (allocate_port b.device_ports (used_ports w.devices) o) _ _
            (λ _. refl)
            λ port _.
              option_rule (Spares j w) (connect_inspector b id o) _ _ (λ _. refl)
                λ i _. get-insert w.devices id j (new_runtime b id port i o) ∙ rw other

  pub disconnect-Spares : (b : ProxyBridge) (w : World) → Spares j w (disconnect_device b id w)
  unfolding disconnect_device update_device_list
  disconnect-Spares b w =
      option_rule (Spares j w) (Dict.get w.devices id) _ _ (λ _. refl)
        λ r _.
          ap (λ m. Dict.get m j)
            (release-devices b r (record w { devices = Dict.remove w.devices id }))
          ∙ (get-remove w.devices id j ∙ rw other)
