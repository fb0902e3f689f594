-- ===== src/HttpServer/Connection/Told.antt =====
-- What the proxy core is told of a connection.
use ios_webkit_debug_proxy_r.Base.{
  ℕ, String, ◌≡◌, refl, ap, ◌∙◌, true, false, some, List, [], ◌∷◌, ◌++◌, map, arith, Bytes,
}
use ios_webkit_debug_proxy_r.HttpServer.{DevicePortState, WsToWiMessage}
use ios_webkit_debug_proxy_r.HttpServer.Connection.{
  Incoming, text, binary, ping, close, stream_end, other, receive_error, wi_data, wi_closed,
  Outgoing, registers, tells, pong, shows, closes, opening, data_message, close_message, tell,
  register, bridge, handle_ws_connection,
}

-- The messages to the core among what goes out.
abbrev pub told : List Outgoing → List WsToWiMessage
told [] = []
told (tells msg ∷ rest) = msg ∷ told rest
told (registers reg ∷ rest) = told rest
told (pong bytes ∷ rest) = told rest
told (shows bytes ∷ rest) = told rest
told (closes ∷ rest) = told rest

-- How a connection ends: it goes on, the client leaves, or it breaks.
pub data Ending : Type 0 where
  goes_on : Ending
  leaves : Ending
  breaks : Ending

abbrev ending : Incoming → Ending
ending close = leaves
ending stream_end = leaves
ending receive_error = breaks
ending wi_closed = breaks
ending (ping bytes false) = breaks
ending (wi_data bytes false) = breaks
ending _ = goes_on

abbrev payload_of : Incoming → List Bytes
payload_of (text bytes) = bytes ∷ []
payload_of (binary bytes) = bytes ∷ []
payload_of _ = []

-- The incoming messages before the one that ends the connection, and how it ends.
abbrev pub live : List Incoming → List Incoming
live [] = []
live (i ∷ rest) = elim (ending i) [ goes_on ↦ i ∷ live rest | leaves ↦ [] | breaks ↦ [] ]

abbrev pub ends : List Incoming → Ending
ends [] = goes_on
ends (i ∷ rest) = elim (ending i) [ goes_on ↦ ends rest | leaves ↦ leaves | breaks ↦ breaks ]

-- The data of the client's messages, in their order.
abbrev pub payloads : List Incoming → List Bytes
payloads [] = []
payloads (i ∷ rest) = payload_of i ++ payloads rest

abbrev pub farewell : ℕ → String → Ending → List WsToWiMessage
farewell page_num ws_id leaves = close_message page_num ws_id ∷ []
farewell page_num ws_id goes_on = []
farewell page_num ws_id breaks = []

module _ (lossy : Bytes → Bytes) (state : DevicePortState) (page_num : ℕ) (ws_id : String) (ch : ℕ)
    (joined : state.ws_to_wi_tx ≡ some ch) where
  told-bridge :
      (incoming : List Incoming)
      → told (bridge lossy state page_num ws_id incoming)
        ≡ map (data_message page_num ws_id) (payloads (live incoming))
          ++ farewell page_num ws_id (ends incoming)
  unfolding bridge
  told-bridge [] = refl
  told-bridge (text bytes ∷ rest) =
      rw joined (ap (λ ms. data_message page_num ws_id bytes ∷ ms) (told-bridge rest))
  told-bridge (binary bytes ∷ rest) =
      rw joined (ap (λ ms. data_message page_num ws_id bytes ∷ ms) (told-bridge rest))
  told-bridge (ping bytes true ∷ rest) = told-bridge rest
  told-bridge (ping bytes false ∷ rest) = refl
  told-bridge (close ∷ rest) = rw joined
  told-bridge (stream_end ∷ rest) = rw joined
  told-bridge (other ∷ rest) = told-bridge rest
  told-bridge (receive_error ∷ rest) = refl
  told-bridge (wi_data bytes true ∷ rest) = told-bridge rest
  told-bridge (wi_data bytes false ∷ rest) = refl
  told-bridge (wi_closed ∷ rest) = refl

  told-tell :
      (msg : WsToWiMessage) (outgoing : List Outgoing)
      → told (tell state msg ++ outgoing) ≡ msg ∷ told outgoing
  told-tell msg outgoing = rw joined

  told-register :
      (tx : ℕ) (outgoing : List Outgoing)
      → told (register state (record { page_num = page_num; ws_id = ws_id; tx = tx }) ++ outgoing)
        ≡ told outgoing
  told-register tx outgoing = ground arith

  -- Where the state has a channel to the proxy core, a connection tells the core its opening, then
  -- the data of each text and binary message before the first message that ends it, in their
  -- order, and a close at last if and only if the client closed the socket or its stream ended; an
  -- error, a reply that cannot be sent and the end of the device's channel end it without a close.
  pub told-handle_ws_connection :
      (tx : ℕ) (incoming : List Incoming)
      → told (handle_ws_connection lossy state page_num ws_id tx incoming)
        ≡ opening page_num ws_id
          ∷ (map (data_message page_num ws_id) (payloads (live incoming))
              ++ farewell page_num ws_id (ends incoming))
  unfolding handle_ws_connection
  told-handle_ws_connection tx incoming =
      told-register tx _
      ∙ (told-tell (opening page_num ws_id) (bridge lossy state page_num ws_id incoming)
          ∙ ap (λ ms. opening page_num ws_id ∷ ms) (told-bridge incoming))
