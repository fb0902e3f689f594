-- ===== src/HttpServer/Pages.antt =====
-- src/http_server.rs: the lists of pages and of devices as HTML and JSON, and the handlers that send
-- them. `serde_json` is a record of its values and calls.
pub mod Urls
use mathlib.Core.Option
use Prim.Native.String.{◌++◌ as concat}
use ios_webkit_debug_proxy_r.Base.{
  ℕ, ◌/◌, ◌%◌, ◌^◌, String, Bool, true, false, Option, none, some, List, [], ◌∷◌, map,
}
use ios_webkit_debug_proxy_r.Base.Decimal.{to_string}
use ios_webkit_debug_proxy_r.Device.{DeviceInfo}
use ios_webkit_debug_proxy_r.HttpServer.{DevicePortState, PageEntry}
use ios_webkit_debug_proxy_r.HttpServer.Texts.{last_part, rsplit_once, join}
use ios_webkit_debug_proxy_r.HttpServer.Responses.{
  Method, Response, html, text, respond, empty_for_head, cors_headers, with_content_type,
}

pub record SerdeJson : Type 1 where
  pub Value : Type 0
  pub string : String → Value
  -- `json!({..})`
  pub object : List (String × Value) → Value
  -- `to_string` of a list; `none` is an error.
  pub list_to_string : List Value → Option String
  -- `to_string` of a value
  pub value_to_string : Value → String

abbrev pub unwrap_or {ℓ} : {A : Type ℓ} → Option A → A → A
unwrap_or (some a) d = a
unwrap_or none d = d

-- The pieces of a `format!`.
abbrev pub format : List String → String
format [] = ""
format (s ∷ rest) = concat s (format rest)

unfoldable pub generate_frontend_url : DevicePortState → ℕ → String
generate_frontend_url state page_num = elim state.frontend [
  | some fe ↦ format (
      "/devtools/"
      ∷ last_part "/" fe
      ∷ "?ws=localhost:"
      ∷ to_string state.port
      ∷ "/devtools/page/"
      ∷ to_string page_num
      ∷ [])
  | none ↦ ""
]

abbrev pub page_item : DevicePortState → PageEntry → String
page_item state page = format (
    "<li value=\""
    ∷ to_string page.page_num
    ∷ "\"><a href=\""
    ∷ generate_frontend_url state page.page_num
    ∷ "\">"
    ∷ unwrap_or page.title "?"
    ∷ " - "
    ∷ unwrap_or page.url "?"
    ∷ "</a></li>"
    ∷ [])

unfoldable pub build_pages_html : DevicePortState → String
build_pages_html state =
    let device_name : String = unwrap_or state.device_name "Unknown" in
    format (
      "<html><head><title>"
      ∷ device_name
      ∷ "</title></head><body>Inspectable pages for "
      ∷ device_name
      ∷ ":<p><ol>"
      ∷ join "\n" (map (page_item state) state.pages)
      ∷ "</ol></body></html>"
      ∷ [])

unfoldable pub handle_index : Method → DevicePortState → Response
handle_index method state =
    empty_for_head method (respond 200 cors_headers (html (build_pages_html state)))

-- The host of the request, without its port.
unfoldable pub host_of : Option String → String
host_of header = elim header [
  | some h ↦ elim (rsplit_once ":" h) [ some (host, port) ↦ host | none ↦ h ]
  | none ↦ "localhost"
]

unfoldable pub web_socket_debugger_url : DevicePortState → String → PageEntry → String
web_socket_debugger_url state host page =
    format (
      "ws://"
      ∷ host
      ∷ ":"
      ∷ to_string state.port
      ∷ "/devtools/page/"
      ∷ to_string page.page_num
      ∷ [])

abbrev pub device_item : DeviceInfo → String
device_item d = format (
    "<li><a href=\"http://localhost:"
    ∷ to_string d.port
    ∷ "/\">"
    ∷ d.device_name
    ∷ "</a> - "
    ∷ d.device_id
    ∷ "</li>"
    ∷ [])

unfoldable pub handle_device_list_html : Method → List DeviceInfo → Response
handle_device_list_html method devices = empty_for_head method (
    respond 200 cors_headers (
      html (
        format (
          "<html><head><title>iOS Devices</title></head><body>iOS Devices:<p><ol>"
          ∷ join "\n" (map device_item devices)
          ∷ "</ol></body></html>"
          ∷ []))))

-- The three numbers that the list of devices shows of a version.
unfoldable pub shown_version : ℕ → ℕ × ℕ × ℕ
shown_version version = (version / 2 ^ 16 % 256, version / 2 ^ 8 % 256, version % 256)

abbrev pub version_text : ℕ × ℕ × ℕ → String
version_text (major, minor, patch) =
    format (to_string major ∷ "." ∷ to_string minor ∷ "." ∷ to_string patch ∷ [])

abbrev pub json_type : String
json_type = "application/json; charset=UTF-8"

module _ (j : SerdeJson) where
  open j use {Value, string, object, list_to_string, value_to_string}

  -- `device_name`, `title` and the like go through `as_deref().unwrap_or("")`.
  unfoldable pub page_object : DevicePortState → String → PageEntry → Value
  page_object state host page = object (
      ("devtoolsFrontendUrl", string (generate_frontend_url state page.page_num))
      ∷ ("faviconUrl", string "")
      ∷ ("thumbnailUrl", string (concat "/thumb/" (unwrap_or page.url "")))
      ∷ ("title", string (unwrap_or page.title ""))
      ∷ ("url", string (unwrap_or page.url ""))
      ∷ ("webSocketDebuggerUrl", string (web_socket_debugger_url state host page))
      ∷ ("appId", string page.app_id)
      ∷ [])

  unfoldable pub build_pages_json : DevicePortState → String → String
  build_pages_json state host =
      unwrap_or (list_to_string (map (page_object state host) state.pages)) "[]"

  unfoldable pub handle_json : Method → Option String → DevicePortState → Response
  handle_json method host state =
      empty_for_head method
        (respond 200 (with_content_type json_type) (text (build_pages_json state (host_of host))))

  unfoldable pub handle_json_version : Method → Response
  handle_json_version method = empty_for_head method (
      respond 200 (with_content_type json_type) (
        text (
          value_to_string (
            object (
              ("Browser", string "iOS WebKit Debug Proxy")
              ∷ ("Protocol-Version", string "1.1")
              ∷ [])))))

  -- The same answer on the port of the device list.
  unfoldable pub handle_version_json : Method → Response
  handle_version_json method = empty_for_head method (
      respond 200 (with_content_type json_type) (
        text (
          value_to_string (
            object (
              ("Browser", string "iOS WebKit Debug Proxy")
              ∷ ("Protocol-Version", string "1.1")
              ∷ [])))))

  unfoldable pub device_object : DeviceInfo → Value
  device_object d = object (
      ("deviceId", string d.device_id)
      ∷ ("deviceName", string d.device_name)
      ∷ ("deviceOSVersion", string (version_text (shown_version d.device_os_version)))
      ∷ ("url", string (concat "localhost:" (to_string d.port)))
      ∷ [])

  unfoldable pub handle_device_list_json : Method → List DeviceInfo → Response
  handle_device_list_json method devices = empty_for_head method (
      respond 200 (with_content_type json_type)
        (text (unwrap_or (list_to_string (map device_object devices)) "[]")))
