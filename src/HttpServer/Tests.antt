-- ===== src/HttpServer/Tests.antt =====
-- Requests at concrete values.
use Prim.Native.String.{◌++◌ as concat}
use ios_webkit_debug_proxy_r.Base.{
  ◌≡◌, refl, ◌↔◌, ◌^◌, ◌<◌, String, true, none, some, [], ◌∷◌, arith,
}
use ios_webkit_debug_proxy_r.Base.Decimal.{to_string}
use ios_webkit_debug_proxy_r.Device.{parse_device_os_version}
use ios_webkit_debug_proxy_r.HttpServer.{DevicePortState, PageEntry}
use ios_webkit_debug_proxy_r.HttpServer.Connection.{page_num_of, handle_ws_upgrade}
use ios_webkit_debug_proxy_r.HttpServer.Texts.{
  last_part, rsplit_once, all_chars, join, contains_dots, strip_prefix,
}
use ios_webkit_debug_proxy_r.HttpServer.Pages.{
  build_pages_html, generate_frontend_url, host_of, web_socket_debugger_url, shown_version,
}
use ios_webkit_debug_proxy_r.HttpServer.Pages.Urls.{
  host_of-strips, shown_version-fits, web_socket_debugger_url-opens,
}
use ios_webkit_debug_proxy_r.HttpServer.Static.{UrlCrate, fetches, static_decision, target_url}
use ios_webkit_debug_proxy_r.HttpServer.Static.Safety.{Allowed, static_decision-fetches}

abbrev page : PageEntry
page = record {
  page_num = 12;
  app_id = "PID:7";
  page_id = 1;
  title = some "<b>news</b>";
  url = some "http://a.org/";
  sender_id = none;
}

abbrev state : DevicePortState
state = record {
  port = 9222;
  device_id = some "phone-1";
  device_name = some "phone";
  device_os_version = 0x110000;
  connected = true;
  pages = page ∷ [];
  frontend = some "http://host/front/devtools.html";
  ws_to_wi_tx = none;
  wi_to_ws_register_tx = none;
}

-- The title is not escaped.
pages_html :
    build_pages_html state
    ≡ concat "<html><head><title>phone</title></head><body>Inspectable pages for phone:<p><ol>" (
        concat
          "<li value=\"12\"><a href=\"/devtools/devtools.html?ws=localhost:9222/devtools/page/12\">"
          "<b>news</b> - http://a.org/</a></li></ol></body></html>")
unfolding build_pages_html generate_frontend_url rsplit_once join to_string
pages_html = refl

-- The host of an IPv6 address without a port loses its last part.
host_v6 : host_of (some "[::1]") ≡ "[:"
unfolding host_of rsplit_once
host_v6 = refl

host_of-strips_example : host_of (some "localhost:9222") ≡ "localhost"
unfolding all_chars
host_of-strips_example = host_of-strips "localhost" (some "9222") refl

shown_version-fits_example :
    (shown_version 0x110203 ≡ parse_device_os_version 0x110203) ↔ (0x110203 < 2 ^ 24)
shown_version-fits_example = shown_version-fits 0x110203

web_socket_debugger_url-opens_example :
    (page_num_of (last_part "/" (web_socket_debugger_url state "localhost" page)) ≡ some 12)
    × (handle_ws_upgrade state 12 ≡ true)
web_socket_debugger_url-opens_example =
    web_socket_debugger_url-opens state "localhost" [] [] page refl (omega arith)

-- A URL given by its path on one server.
abbrev url : UrlCrate
url = record {
  Url = String;
  parse = λ s. strip_prefix "http://host" s;
  path = λ u. u;
  set_path = λ u path. path;
  to_string = λ u. concat "http://host" u;
}

static_decision-fetches_example :
    (static_decision url (some "http://host/front/devtools.html") "a.js"
      ≡ fetches "http://host/front/a.js")
    ↔ Allowed url (some "http://host/front/devtools.html") "a.js" "http://host/front/a.js"
static_decision-fetches_example =
    static_decision-fetches url (some "http://host/front/devtools.html") "a.js"
      "http://host/front/a.js"

fetched_file :
    static_decision url (some "http://host/front/devtools.html") "a.js"
    ≡ fetches "http://host/front/a.js"
unfolding static_decision strip_prefix contains_dots all_chars target_url rsplit_once
fetched_file = refl
