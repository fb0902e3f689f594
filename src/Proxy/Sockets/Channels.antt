-- ===== src/Proxy/Sockets/Channels.antt =====
-- The channel that a client registered stays until the client itself closes.
use mathlib.Core.Option
use mathlib.Core.Option.{none-ne-some}
use ios_webkit_debug_proxy_r.Base.{
  ℕ, String, ◌≡◌, refl, sym, subst, ◌∙◌, true, false, ◌&&◌, Option, none, some, List, [], ◌∷◌, ◌==◌,
  nat_eq, string_eq, str_eq_refl, Option-cases, inl, inr, Bytes, All, arith,
}
use ios_webkit_debug_proxy_r.Base.Dict.{HashMap}
use ios_webkit_debug_proxy_r.Base.Dict
use ios_webkit_debug_proxy_r.Base.Dict.Laws.{get-remove, get-insert}
use ios_webkit_debug_proxy_r.HttpServer.{WsToWiMessage, WiToWsRegistration}
use ios_webkit_debug_proxy_r.Plist.{Plist}
use ios_webkit_debug_proxy_r.Proxy.State.{DeviceRuntime, World, forwards, emit}
use ios_webkit_debug_proxy_r.Proxy.Sockets.Frames.{handle_all, handle_all-Stays}
use ios_webkit_debug_proxy_r.Proxy.Sockets.Delivery.{registration-get}
use ios_webkit_debug_proxy_r.Proxy.Sockets.{handle_ws_registration, handle_app_data}

-- The channel of a client of a device.
abbrev pub channel : HashMap String DeviceRuntime → String → String → Option ℕ
channel devices id ws_id =
    Option.bind (Dict.get devices id) (λ (r : DeviceRuntime). Dict.get r.ws_client_txs ws_id)

-- A client's message to a device is no close of the client ws_id.
abbrev pub Spares : String → String × WsToWiMessage → Type 0
Spares ws_id (id, msg) = (msg.is_close && msg.ws_id == ws_id) ≡ false

module _ (p : Plist) (ws_id : String) where
  -- The client's channel is the same after messages that are no close of this client.
  handle_all-channel :
      (messages : List (String × WsToWiMessage)) (w : World) (id : String)
      → All (Spares ws_id) messages
      → channel (handle_all p messages w).devices id ws_id ≡ channel w.devices id ws_id
  handle_all-channel messages w id spares =
      handle_all-Stays (λ r. Dict.get r.ws_client_txs ws_id) (λ gone_id. (gone_id == ws_id) ≡ false)
        (λ r n. refl) (λ r n id'. refl)
        (λ r gone_id other. get-remove r.ws_client_txs gone_id ws_id ∙ rw other refl) p messages w
        (spared messages spares) id
    where
      spared :
          (messages : List (String × WsToWiMessage))
          → All (Spares ws_id) messages
          → All
              (λ (m : String × WsToWiMessage). m.1.is_close ≡ true → (m.1.ws_id == ws_id) ≡ false)
              messages
      spared [] all = tt
      spared ((at, msg) ∷ messages) all =
          (λ closing. ground (arith, closing, all.0), spared messages all.1)

handle_app_data-channel :
    (w : World) (id ws_id : String) (tx : ℕ) (bytes : Bytes)
    → channel w.devices id ws_id ≡ some tx
    → handle_app_data id ws_id bytes w ≡ emit w (forwards tx bytes)
unfolding handle_app_data Option.bind
handle_app_data-channel w id ws_id tx bytes open' = elim (Option-cases (Dict.get w.devices id)) [
  | inl away ↦
      let closed : channel w.devices id ws_id ≡ none = rw away refl in
      absurd (none-ne-some tx (sym closed ∙ open'))
  | inr (r, known) ↦
      let found : Dict.get r.ws_client_txs ws_id ≡ some tx =
        subst (λ o. Option.bind o (λ (x : DeviceRuntime). Dict.get x.ws_client_txs ws_id) ≡ some tx)
          known open' in
      rw (known, found, handle_app_data) refl
]

module _ (p : Plist) (w : World) (id : String) (r : DeviceRuntime) (reg : WiToWsRegistration) where
  registered-channel :
      Dict.get w.devices id ≡ some r
      → channel (handle_ws_registration id reg w).devices id reg.ws_id ≡ some reg.tx
  unfolding Option.bind
  registered-channel known =
      rw (registration-get w id r known reg)
        (get-insert r.ws_client_txs reg.ws_id reg.ws_id reg.tx ∙ rw (str_eq_refl reg.ws_id) refl)

  -- Once a client has registered with a known device, data of the device for it are sent on its
  -- channel, and nothing else is done, after whatever messages of clients come in between, to this
  -- device and to others, as long as none is a close of this client.
  pub handle_app_data-reaches :
      (messages : List (String × WsToWiMessage)) (bytes : Bytes)
      → Dict.get w.devices id ≡ some r
      → All (Spares reg.ws_id) messages
      → handle_app_data id reg.ws_id bytes (handle_all p messages (handle_ws_registration id reg w))
        ≡ emit (handle_all p messages (handle_ws_registration id reg w)) (forwards reg.tx bytes)
  handle_app_data-reaches messages bytes known spares =
      handle_app_data-channel _ id reg.ws_id reg.tx bytes (
        handle_all-channel p reg.ws_id messages (handle_ws_registration id reg w) id spares
        ∙ registered-channel known)
