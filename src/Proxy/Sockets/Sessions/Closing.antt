-- ===== src/Proxy/Sockets/Sessions/Closing.antt =====
-- A close gives a page up; data are carried to the device.
use mathlib.Core.Option.{some-injective}
use ios_webkit_debug_proxy_r.Base.{
  ℕ, String, ◌≡◌, refl, sym, ap, subst, ◌∙◌, true, false, none, some, List, [], ◌∷◌, ◌++◌, nat_eq,
  string_eq, str_eq_refl, is_empty,
}
use ios_webkit_debug_proxy_r.Base.Dict.{HashMap, values}
use ios_webkit_debug_proxy_r.Base.Dict
use ios_webkit_debug_proxy_r.Base.Dict.Laws.{get-modify, get-remove}
use ios_webkit_debug_proxy_r.HttpServer.{WsToWiMessage}
use ios_webkit_debug_proxy_r.Plist.{Plist}
use ios_webkit_debug_proxy_r.Proxy.State.{PageInfo, DeviceRuntime, World, Effect, emit}
use ios_webkit_debug_proxy_r.Proxy.Devices.{unwrap_or}
use ios_webkit_debug_proxy_r.Proxy.Sockets.{
  set_runtime, find_page, detach, update_page, stop_devtools, current_client, forward_data,
  remove_client, handle_ws_message,
}
use ios_webkit_debug_proxy_r.Proxy.Sockets.Frames.{without_client}
use ios_webkit_debug_proxy_r.Proxy.Sockets.Sessions.{
  HasPage, Link, IsLinked, current_client-HasPage, closes, carries, send_rpc-linked,
  stop_devtools-HasPage,
}

module _ (p : Plist) where
  remove_client-eq :
      (w : World) (id ws_id : String) (r : DeviceRuntime)
      → Dict.get w.devices id ≡ some r
      → remove_client p id ws_id w ≡ set_runtime w id (without_client ws_id r)
  unfolding remove_client
  remove_client-eq w id ws_id r known = rw (known, remove_client)

  -- The page has no client, the one that left has no channel, and these messages were sent since.
  pub record Closed (w w' : World) (id ws_id : String) (n : ℕ) (sent : List Effect) : Type 0 where
    pub effects : w'.effects ≡ w.effects ++ sent
    pub free : current_client p id n w' ≡ none
    pub gone :
        (r : DeviceRuntime)
        → Dict.get w'.devices id ≡ some r
        → Dict.get r.ws_client_txs ws_id ≡ none

  -- The client is taken out of a device whose page is free.
  remove_client-Closed :
      (w w' : World) (id ws_id : String) (r : DeviceRuntime) (n : ℕ) (q : PageInfo)
      (sent : List Effect)
      → HasPage w' id r n q
      → q.ws_client_id ≡ none
      → w'.effects ≡ w.effects ++ sent
      → Closed w (remove_client p id ws_id w') id ws_id n sent
  remove_client-Closed w w' id ws_id r n q sent has free said =
      subst (λ u. Closed w u id ws_id n sent) (sym (remove_client-eq w' id ws_id r has.device))
        (record {
          effects = said;
          free =
              current_client-HasPage p _ id (without_client ws_id r) n q
                (record { device = stored; page = has.page })
              ∙ free;
          gone = λ r' got.
              subst (λ (x : DeviceRuntime). Dict.get x.ws_client_txs ws_id ≡ none)
                (some-injective _ _ (sym stored ∙ got))
                (get-remove r.ws_client_txs ws_id ws_id ∙ rw (str_eq_refl ws_id));
        })
    where
      stored :
          Dict.get (Dict.modify w'.devices id (λ _. without_client ws_id r)) id
          ≡ some (without_client ws_id r)
      stored =
          get-modify w'.devices id id (λ _. without_client ws_id r)
          ∙ rw (str_eq_refl id, has.device)

  module _ (l : Link) (id : String) (n : ℕ) (r : DeviceRuntime) (q : PageInfo) (w : World)
      (linked : IsLinked r l) (has : HasPage w id r n q) where
    -- A close ends the session of the client that the page has, whichever client the close comes
    -- from: the device is told that the page's client left, the page is free, and the client that
    -- sent the close has no channel. It holds where the device has a connection.
    pub handle_ws_message-closes :
        (msg : WsToWiMessage) (holder : String)
        → msg.is_close ≡ true
        → msg.page_num ≡ n
        → q.sender_id ≡ some holder
        → Closed w (handle_ws_message p id msg w) id msg.ws_id n (closes p l q holder ∷ [])
    unfolding handle_ws_message
    handle_ws_message-closes msg holder closing num held =
        let (said, has') = stop_devtools-HasPage p l id n r q w holder linked has held in
        rw (closing, num, handle_ws_message)
          (remove_client-Closed w (stop_devtools p id n w) id msg.ws_id (update_page n detach r) n
            (detach q) (closes p l q holder ∷ []) has' refl said)

    -- Where the device has a connection and the page, a message with data is sent to the device
    -- under the identifier of the page's client, or of the client that sent it if the page has
    -- none, and nothing else changes.
    pub handle_ws_message-carries :
        (msg : WsToWiMessage)
        → msg.is_close ≡ false
        → is_empty msg.payload ≡ false
        → msg.page_num ≡ n
        → handle_ws_message p id msg w
          ≡ emit w (carries p l q (unwrap_or q.sender_id msg.ws_id) msg.payload)
    unfolding handle_ws_message forward_data
    handle_ws_message-carries msg going full num =
        rw (going, full, handle_ws_message)
          (rw (has.device, ap (λ k. find_page k r.pages) num ∙ has.page, forward_data)
            (send_rpc-linked p l r _ w linked))
