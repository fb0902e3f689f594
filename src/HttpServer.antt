-- ===== src/HttpServer.antt =====
-- src/http_server.rs: the state that the proxy shares with the HTTP and WebSocket servers, and the
-- messages between them. A channel's sender is given by the channel's number.
pub mod Connection
pub mod Texts
pub mod Responses
pub mod Pages
pub mod Static
pub mod Routes
pub mod Tests
use ios_webkit_debug_proxy_r.Base.{ℕ, String, Bool, Option, List, Bytes}

pub record PageEntry : Type 0 where
  pub page_num : ℕ
  pub app_id : String
  pub page_id : ℕ
  pub title : Option String
  pub url : Option String
  pub sender_id : Option String

pub record DevicePortState : Type 0 where
  pub port : ℕ
  pub device_id : Option String
  pub device_name : Option String
  pub device_os_version : ℕ
  pub connected : Bool
  pub pages : List PageEntry
  pub frontend : Option String
  pub ws_to_wi_tx : Option ℕ
  pub wi_to_ws_register_tx : Option ℕ

pub record WsToWiMessage : Type 0 where
  pub page_num : ℕ
  pub ws_id : String
  pub payload : Bytes
  pub is_close : Bool

pub record WiToWsRegistration : Type 0 where
  pub page_num : ℕ
  pub ws_id : String
  pub tx : ℕ
