-- ===== src/Proxy/Sockets/Delivery.antt =====
-- What a registration does to a device that is known: the client's channel is stored, nothing sent.
use ios_webkit_debug_proxy_r.Base.{String, ◌≡◌, ◌∙◌, some, string_eq, str_eq_refl}
use ios_webkit_debug_proxy_r.Base.Dict
use ios_webkit_debug_proxy_r.Base.Dict.Laws.{get-modify}
use ios_webkit_debug_proxy_r.HttpServer.{WiToWsRegistration}
use ios_webkit_debug_proxy_r.Proxy.State.{DeviceRuntime, World}
use ios_webkit_debug_proxy_r.Proxy.Sockets.{handle_ws_registration}

abbrev pub registered : WiToWsRegistration → DeviceRuntime → DeviceRuntime
registered reg r = record r {
  ws_clients =
      Dict.insert r.ws_clients reg.ws_id
        (record { page_num = reg.page_num; sender_id = reg.ws_id });
  ws_client_txs = Dict.insert r.ws_client_txs reg.ws_id reg.tx;
}

module _ (w : World) (id : String) (r : DeviceRuntime) (known : Dict.get w.devices id ≡ some r)
    (reg : WiToWsRegistration) where
  pub registration-get :
      Dict.get (handle_ws_registration id reg w).devices id ≡ some (registered reg r)
  unfolding handle_ws_registration
  registration-get =
      rw (known, handle_ws_registration)
        (get-modify w.devices id id (λ _. registered reg r) ∙ rw (str_eq_refl id, known))

  registration-effects : (handle_ws_registration id reg w).effects ≡ w.effects
  unfolding handle_ws_registration
  registration-effects = rw (known, handle_ws_registration)
