-- ===== src/HttpServer/Routes.antt =====
-- src/http_server.rs: which handler answers a path, on the port of a device, on that of a device
-- without HTTP pages, and on that of the device list. axum picks the route of a path.
use ios_webkit_debug_proxy_r.Base.{
  ℕ, String, Option, none, some, List, [], ◌∷◌, Bool, if◌then◌else◌,
}
use ios_webkit_debug_proxy_r.Device.{DeviceInfo}
use ios_webkit_debug_proxy_r.HttpServer.{DevicePortState}
use ios_webkit_debug_proxy_r.HttpServer.Connection.{handle_ws_upgrade}
use ios_webkit_debug_proxy_r.HttpServer.Responses.{
  Method, Response, text, respond, handle_404, handle_404_simple,
}
use ios_webkit_debug_proxy_r.HttpServer.Pages.{
  SerdeJson, handle_index, handle_json, handle_json_version, handle_device_list_html,
  handle_device_list_json, handle_version_json,
}
use ios_webkit_debug_proxy_r.HttpServer.Static.{UrlCrate, Fetched, handle_devtools_static}

pub data Handler : Type 0 where
  index json json_version ws_upgrade devtools_static : Handler

pub data ListHandler : Type 0 where
  list_html list_json version_json : ListHandler

abbrev pub device_router : List (String × Handler)
device_router =
    ("/", index)
    ∷ ("/json", json)
    ∷ ("/json/list", json)
    ∷ ("/json/version", json_version)
    ∷ ("/devtools/page/{page_num}", ws_upgrade)
    ∷ ("/devtools/{*path}", devtools_static)
    ∷ ("/devtools/", devtools_static)
    ∷ []

abbrev pub device_ws_only_router : List (String × Handler)
device_ws_only_router = ("/devtools/page/{page_num}", ws_upgrade) ∷ []

abbrev pub device_list_router : List (String × ListHandler)
device_list_router =
    ("/", list_html)
    ∷ ("/json", list_json)
    ∷ ("/json/list", list_json)
    ∷ ("/json/version", version_json)
    ∷ []

-- A request, with the number that axum reads from the path of a page.
pub record Request : Type 0 where
  pub method : Method
  pub path : String
  pub host : Option String
  pub page_num : ℕ

-- The WebSocket of a page is opened, or there is a response.
pub data Reply : Type 0 where
  responds : Response → Reply
  upgrades : ℕ → Reply

-- `fetch` is what reqwest fetches; `none` stands for the fallback.
unfoldable pub device_reply :
    SerdeJson
    → UrlCrate
    → (Bool → String → Fetched)
    → Option Handler
    → Request
    → DevicePortState
    → Reply
device_reply j u fetch none r state = responds (handle_404 r.method r.path)
device_reply j u fetch (some index) r state = responds (handle_index r.method state)
device_reply j u fetch (some json) r state = responds (handle_json j r.method r.host state)
device_reply j u fetch (some json_version) r state = responds (handle_json_version j r.method)
device_reply j u fetch (some ws_upgrade) r state =
    if handle_ws_upgrade state r.page_num
    then upgrades r.page_num
    else responds (respond 404 [] (text "Page not found"))
device_reply j u fetch (some devtools_static) r state =
    responds (handle_devtools_static u fetch r.method r.path state)

unfoldable pub device_list_reply :
    SerdeJson → Option ListHandler → Method → List DeviceInfo → Response
device_list_reply j none method devices = handle_404_simple
device_list_reply j (some list_html) method devices = handle_device_list_html method devices
device_list_reply j (some list_json) method devices = handle_device_list_json j method devices
device_list_reply j (some version_json) method devices = handle_version_json j method
