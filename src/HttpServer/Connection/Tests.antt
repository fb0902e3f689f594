-- ===== src/HttpServer/Connection/Tests.antt =====
-- A client that sends a text and leaves.
use ios_webkit_debug_proxy_r.Base.{◌≡◌, refl, true, none, some, [], ◌∷◌, Bytes}
use ios_webkit_debug_proxy_r.HttpServer.{DevicePortState}
use ios_webkit_debug_proxy_r.HttpServer.Connection.{
  text, close, wi_data, opening, data_message, close_message, handle_ws_connection,
}
use ios_webkit_debug_proxy_r.HttpServer.Connection.Told.{told, told-handle_ws_connection}

abbrev state : DevicePortState
state = record {
  port = 9222;
  device_id = some "phone-1";
  device_name = some "phone";
  device_os_version = 0xe0000;
  connected = true;
  pages = [];
  frontend = none;
  ws_to_wi_tx = some 3;
  wi_to_ws_register_tx = some 4;
}

abbrev lossy : Bytes → Bytes
lossy bytes = bytes

told-handle_ws_connection_example :
    told (
      handle_ws_connection lossy state 1 "W1" 31
        (text (123 ∷ []) ∷ wi_data (91 ∷ []) true ∷ close ∷ text (125 ∷ []) ∷ []))
    ≡ opening 1 "W1" ∷ data_message 1 "W1" (123 ∷ []) ∷ close_message 1 "W1" ∷ []
told-handle_ws_connection_example =
    told-handle_ws_connection lossy state 1 "W1" 3 refl 31
      (text (123 ∷ []) ∷ wi_data (91 ∷ []) true ∷ close ∷ text (125 ∷ []) ∷ [])
