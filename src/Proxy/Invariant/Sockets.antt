-- ===== src/Proxy/Invariant/Sockets.antt =====
-- The handlers of the WebSocket clients keep the invariant.
use ios_webkit_debug_proxy_r.Base.{
  ℕ, String, ◌≡◌, refl, sym, subst, not, some, Bytes, arith, ◌==◌, string_eq, nat_eq, option_rule,
  if_rule, is_empty,
}
use ios_webkit_debug_proxy_r.Base.Dict
use ios_webkit_debug_proxy_r.Base.Dict.Laws.{get-insert, get-remove}
use ios_webkit_debug_proxy_r.HttpServer.{WsToWiMessage, WiToWsRegistration}
use ios_webkit_debug_proxy_r.Plist.{Plist}
use ios_webkit_debug_proxy_r.Rpc.{RpcSender}
use ios_webkit_debug_proxy_r.Proxy.State.{PageInfo, DeviceRuntime, World}
use ios_webkit_debug_proxy_r.Proxy.Devices.{is_some}
use ios_webkit_debug_proxy_r.Proxy.Sockets.{
  set_runtime, find_page, update_page, detach, attach, send_rpc, stop_devtools, attach_client,
  send_forward_socket_setup, current_client, forward_data, remove_client, handle_ws_message,
  handle_ws_registration, handle_app_data,
}
use ios_webkit_debug_proxy_r.Proxy.Invariant.{IsRuntime, IsWorld}
use ios_webkit_debug_proxy_r.Proxy.Invariant.Runtimes.{
  set_runtime-IsWorld, effects-IsWorld, update_page-IsRuntime,
}
use native.Mathlib.Nat.{le_refl}

module _ (p : Plist) where
  -- A send changes the log alone.
  pub send_rpc_effects :
      (r : DeviceRuntime) (build : RpcSender → Bytes) (w : World)
      → send_rpc p r build w ≡ record w { effects = (send_rpc p r build w).effects }
  unfolding send_rpc
  send_rpc_effects r build w = ground arith

  pub send_rpc-IsWorld :
      {n : ℕ} (r : DeviceRuntime) (build : RpcSender → Bytes) (w : World)
      → IsWorld n w
      → IsWorld n (send_rpc p r build w)
  send_rpc-IsWorld {n} r build w v =
      subst (IsWorld n) (sym (send_rpc_effects r build w)) (effects-IsWorld w _ v)

  module _ {n : ℕ} (device_id : String) (w : World) (v : IsWorld n w) where
    update_page-IsWorld :
        (r : DeviceRuntime) (page_num : ℕ) (f : PageInfo → PageInfo)
        → Dict.get w.devices device_id ≡ some r
        → IsRuntime n (update_page page_num f r)
        → IsWorld n (set_runtime w device_id (update_page page_num f r))
    update_page-IsWorld r page_num f got v' =
        set_runtime-IsWorld n w device_id r (update_page page_num f r) (le_refl n) v got
          (record { info = refl; is_shown_eq = refl; device_id = refl; port = refl }) v'

    detach-IsRuntime :
        (r : DeviceRuntime) (page_num : ℕ)
        → Dict.get w.devices device_id ≡ some r
        → IsRuntime n (update_page page_num detach r)
    detach-IsRuntime r page_num got =
        update_page-IsRuntime r (v.runtime device_id r got) page_num detach
          (λ q. record { page_num = refl; app_id = refl; page_id = refl }) (λ q. refl) (λ q. refl)

    attach-IsRuntime :
        (r : DeviceRuntime) (page_num : ℕ) (ws_id : String)
        → Dict.get w.devices device_id ≡ some r
        → IsRuntime n (update_page page_num (attach ws_id) r)
    attach-IsRuntime r page_num ws_id got =
        update_page-IsRuntime r (v.runtime device_id r got) page_num (attach ws_id)
          (λ q. record { page_num = refl; app_id = refl; page_id = refl }) (λ q. refl) (λ q. refl)

    pub stop_devtools-IsWorld : (page_num : ℕ) → IsWorld n (stop_devtools p device_id page_num w)
    unfolding stop_devtools
    stop_devtools-IsWorld page_num =
        option_rule (IsWorld n) (Dict.get w.devices device_id) _ _ (λ _. v)
          λ r got.
            option_rule (IsWorld n) (find_page page_num r.pages) _ _ (λ _. v)
              λ q _.
                option_rule (IsWorld n) q.sender_id _ _ (λ _. v)
                  λ s _.
                    subst (λ u. IsWorld n (set_runtime u device_id (update_page page_num detach r)))
                      (sym (send_rpc_effects r _ w))
                      (effects-IsWorld (set_runtime w device_id (update_page page_num detach r)) _ (
                        update_page-IsWorld r page_num detach got
                          (detach-IsRuntime r page_num got)))

    attach_client-IsWorld :
        (ws_id : String) (page_num : ℕ) → IsWorld n (attach_client p device_id ws_id page_num w)
    unfolding attach_client
    attach_client-IsWorld ws_id page_num =
        option_rule (IsWorld n) (Dict.get w.devices device_id) _ _ (λ _. v)
          λ r got.
            option_rule (IsWorld n) (find_page page_num r.pages) _ _ (λ _. v)
              λ q _. send_rpc-IsWorld r _ _ (
                update_page-IsWorld r page_num (attach ws_id) got
                  (attach-IsRuntime r page_num ws_id got))

    forward_data-IsWorld : (msg : WsToWiMessage) → IsWorld n (forward_data p device_id msg w)
    unfolding forward_data
    forward_data-IsWorld msg =
        option_rule (IsWorld n) (Dict.get w.devices device_id) _ _ (λ _. v)
          λ r _.
            option_rule (IsWorld n) (find_page msg.page_num r.pages) _ _ (λ _. v)
              λ q _. send_rpc-IsWorld r _ w v

    -- The two maps of clients change together.
    clients-IsWorld :
        (r r' : DeviceRuntime)
        → Dict.get w.devices device_id ≡ some r
        → r' ≡ record r { ws_clients = r'.ws_clients; ws_client_txs = r'.ws_client_txs }
        → ((ws_id : String)
            → is_some (Dict.get r'.ws_clients ws_id) ≡ is_some (Dict.get r'.ws_client_txs ws_id))
        → IsWorld n (set_runtime w device_id r')
    clients-IsWorld r r' got same clients =
        let old = v.runtime device_id r got in
        subst (λ x. IsWorld n (set_runtime w device_id x)) (sym same)
          (set_runtime-IsWorld n w device_id r _ (le_refl n) v got
            (record { info = refl; is_shown_eq = refl; device_id = refl; port = refl })
            (record {
              is_table = old.is_table;
              bound = old.bound;
              shared_connected = old.shared_connected;
              shared_pages = old.shared_pages;
              attached = old.attached;
              clients = clients;
            }))

    remove_client-IsWorld : (ws_id : String) → IsWorld n (remove_client p device_id ws_id w)
    unfolding remove_client
    remove_client-IsWorld ws_id =
        option_rule (IsWorld n) (Dict.get w.devices device_id) _ _ (λ _. v)
          λ r got. clients-IsWorld r _ got refl λ j. ground (
            arith,
            get-remove r.ws_clients ws_id j,
            get-remove r.ws_client_txs ws_id j,
            (v.runtime device_id r got).clients j,
          )

    pub handle_ws_registration-IsWorld :
        (reg : WiToWsRegistration) → IsWorld n (handle_ws_registration device_id reg w)
    unfolding handle_ws_registration
    handle_ws_registration-IsWorld reg =
        option_rule (IsWorld n) (Dict.get w.devices device_id) _ _ (λ _. v)
          λ r got. clients-IsWorld r _ got refl λ j. ground (
            arith,
            get-insert r.ws_clients reg.ws_id j
                (record { page_num = reg.page_num; sender_id = reg.ws_id }),
            get-insert r.ws_client_txs reg.ws_id j reg.tx,
            (v.runtime device_id r got).clients j,
          )

    pub handle_app_data-IsWorld :
        (dest_id : String) (bytes : Bytes) → IsWorld n (handle_app_data device_id dest_id bytes w)
    unfolding handle_app_data
    handle_app_data-IsWorld dest_id bytes =
        option_rule (IsWorld n) (Dict.get w.devices device_id) _ _ (λ _. v)
          λ r _.
            option_rule (IsWorld n) (Dict.get r.ws_client_txs dest_id) _ _ (λ _. v)
              λ tx _. effects-IsWorld w _ v

  module _ {n : ℕ} (device_id : String) (w : World) (v : IsWorld n w) where
    send_forward_socket_setup-IsWorld :
        (ws_id : String) (page_num : ℕ)
        → IsWorld n (send_forward_socket_setup p device_id ws_id page_num w)
    unfolding send_forward_socket_setup
    send_forward_socket_setup-IsWorld ws_id page_num =
        attach_client-IsWorld device_id _
          (option_rule (IsWorld n) (current_client p device_id page_num w) _ _ (λ _. v)
            λ old_id _.
              if_rule (IsWorld n) (not (old_id == ws_id)) _ _
                (λ _. stop_devtools-IsWorld device_id w v page_num) (λ _. v))
          ws_id page_num

    pub handle_ws_message-IsWorld :
        (msg : WsToWiMessage) → IsWorld n (handle_ws_message p device_id msg w)
    unfolding handle_ws_message
    handle_ws_message-IsWorld msg =
        if_rule (IsWorld n) msg.is_close _ _
          (λ _.
            remove_client-IsWorld device_id _ (stop_devtools-IsWorld device_id w v msg.page_num)
              msg.ws_id)
          λ _.
            if_rule (IsWorld n) (is_empty msg.payload) _ _
              (λ _. send_forward_socket_setup-IsWorld msg.ws_id msg.page_num)
              (λ _. forward_data-IsWorld device_id w v msg)
