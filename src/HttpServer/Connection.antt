-- ===== src/HttpServer/Connection.antt =====
-- src/http_server.rs: the WebSocket connection of a debugging client, handle_ws_upgrade and
-- handle_ws_connection. A run is the list of what the `select!` takes, with how each reply to the
-- client goes; it ends with the list or at a `break`.
pub mod Told
pub mod Tests
use ios_webkit_debug_proxy_r.Base.{
  ℕ, String, Bool, true, false, Option, none, some, List, [], ◌∷◌, ◌++◌, ◌==◌, nat_eq, any, Bytes,
  ascii,
}
use ios_webkit_debug_proxy_r.Base.Int.{parse_u32}
use ios_webkit_debug_proxy_r.HttpServer.{DevicePortState, WsToWiMessage, WiToWsRegistration}

-- What comes in: the messages of the client's socket, its end or error, and the data of the device.
-- The flags say if the reply, or the data, can be sent to the client.
pub data Incoming : Type 0 where
  text : Bytes → Incoming
  binary : Bytes → Incoming
  ping : Bytes → Bool → Incoming
  close : Incoming
  stream_end : Incoming
  other : Incoming
  receive_error : Incoming
  wi_data : Bytes → Bool → Incoming
  wi_closed : Incoming

-- What goes out: to the proxy core, and to the client.
pub data Outgoing : Type 0 where
  registers : WiToWsRegistration → Outgoing
  tells : WsToWiMessage → Outgoing
  pong : Bytes → Outgoing
  shows : Bytes → Outgoing
  closes : Outgoing

-- `Path<u32>`, of the last part of the path.
unfoldable pub page_num_of : String → Option ℕ
page_num_of part = parse_u32 (ascii part)

-- The page has to be known.
unfoldable pub handle_ws_upgrade : DevicePortState → ℕ → Bool
handle_ws_upgrade state page_num = any (λ p. p.page_num == page_num) state.pages

-- A send on the state's channel to the proxy core, if it has one.
abbrev pub tell : DevicePortState → WsToWiMessage → List Outgoing
tell state msg = elim state.ws_to_wi_tx [ some tx ↦ tells msg ∷ [] | none ↦ [] ]

abbrev pub register : DevicePortState → WiToWsRegistration → List Outgoing
register state reg = elim state.wi_to_ws_register_tx [ some tx ↦ registers reg ∷ [] | none ↦ [] ]

-- The three messages that a connection sends to the core: the opening, data, and the close.
abbrev pub opening : ℕ → String → WsToWiMessage
opening page_num ws_id = record {
  page_num = page_num;
  ws_id = ws_id;
  payload = [];
  is_close = false;
}

abbrev pub data_message : ℕ → String → Bytes → WsToWiMessage
data_message page_num ws_id bytes = record {
  page_num = page_num;
  ws_id = ws_id;
  payload = bytes;
  is_close = false;
}

abbrev pub close_message : ℕ → String → WsToWiMessage
close_message page_num ws_id = record {
  page_num = page_num;
  ws_id = ws_id;
  payload = [];
  is_close = true;
}

-- `from_utf8_lossy` gives the bytes of the text that it makes.
module _ (from_utf8_lossy : Bytes → Bytes) (state : DevicePortState) (page_num : ℕ)
    (ws_id : String) where
  -- The loop of the bridge.
  unfoldable pub bridge : List Incoming → List Outgoing
  bridge [] = []
  bridge (text bytes ∷ rest) = tell state (data_message page_num ws_id bytes) ++ bridge rest
  bridge (binary bytes ∷ rest) = tell state (data_message page_num ws_id bytes) ++ bridge rest
  bridge (ping bytes true ∷ rest) = pong bytes ∷ bridge rest
  bridge (ping bytes false ∷ rest) = []
  bridge (close ∷ rest) = tell state (close_message page_num ws_id)
  bridge (stream_end ∷ rest) = tell state (close_message page_num ws_id)
  bridge (other ∷ rest) = bridge rest
  bridge (receive_error ∷ rest) = []
  bridge (wi_data bytes true ∷ rest) = shows (from_utf8_lossy bytes) ∷ bridge rest
  bridge (wi_data bytes false ∷ rest) = []
  bridge (wi_closed ∷ rest) = closes ∷ []

  -- `tx` is the channel on which the connection gets the device's data.
  unfoldable pub handle_ws_connection : ℕ → List Incoming → List Outgoing
  handle_ws_connection tx incoming =
      register state (record { page_num = page_num; ws_id = ws_id; tx = tx })
      ++ (tell state (opening page_num ws_id) ++ bridge incoming)
