-- ===== src/Proxy/Tests/Sockets.antt =====
-- Clients on a concrete device with two pages.
use ios_webkit_debug_proxy_r.Base.{refl, true, false, none, some, [], ◌∷◌, nat_eq, string_eq}
use ios_webkit_debug_proxy_r.Base.Dict
use ios_webkit_debug_proxy_r.Device.{web_page}
use ios_webkit_debug_proxy_r.HttpServer.{WsToWiMessage, WiToWsRegistration}
use ios_webkit_debug_proxy_r.Plist.Sample.{sample}
use ios_webkit_debug_proxy_r.WebInspector.{new_codec}
use ios_webkit_debug_proxy_r.Proxy.State.{PageInfo, DeviceRuntime, World}
use ios_webkit_debug_proxy_r.Proxy.Devices.{Inspector, new_runtime}
use ios_webkit_debug_proxy_r.Proxy.Sockets.{handle_ws_message}
use ios_webkit_debug_proxy_r.Proxy.Sockets.Sessions.{HasPage, Link, IsLinked, closes}
use ios_webkit_debug_proxy_r.Proxy.Sockets.Sessions.Opening.{Opened, ended, handle_ws_message-opens}
use ios_webkit_debug_proxy_r.Proxy.Sockets.Sessions.Closing.{Closed, handle_ws_message-closes}
use ios_webkit_debug_proxy_r.Proxy.Run.{ws_message, step}
use ios_webkit_debug_proxy_r.Proxy.Isolation.{Spares, step-Spares}
use ios_webkit_debug_proxy_r.Proxy.Tests.{bridge, outside}

-- The client W1 debugs page 1.
abbrev pub held_page : PageInfo
held_page = record {
  page_num = 1;
  page_type = web_page;
  app_id = "PID:7";
  page_id = 10;
  connection_id = none;
  title = some "News";
  url = some "about:news";
  sender_id = some "W1";
  ws_client_id = some "W1";
}

abbrev inspector : Inspector
inspector = record {
  handle = record { write_tx = 7 };
  codec = new_codec false false;
  device_name = "phone";
  device_os_version = 0xe0000;
}

abbrev pub runtime : DeviceRuntime
runtime = record (new_runtime bridge "phone-1" 9222 inspector outside) {
  pages = (1, held_page) ∷ [];
}

abbrev pub world : World
world = record { devices = ("phone-1", runtime) ∷ []; device_list = []; effects = [] }

abbrev link : Link
link = record {
  sender = record { connection_id = "C0" };
  handle = record { write_tx = 7 };
  codec = new_codec false false;
}

runtime-IsLinked : IsLinked runtime link
unfolding new_runtime
runtime-IsLinked = record { sender = refl; handle = refl; codec = refl }

pub world-HasPage : HasPage world "phone-1" runtime 1 held_page
unfolding new_runtime Dict.get
world-HasPage = record { device = refl; page = refl }

abbrev pub opening : WsToWiMessage
opening = record { page_num = 1; ws_id = "W2"; payload = []; is_close = false }

abbrev pub closing : WsToWiMessage
closing = record { page_num = 1; ws_id = "W0"; payload = []; is_close = true }

handle_ws_message-opens_example :
    Opened sample link "phone-1" 1 "W2" world
      (handle_ws_message sample "phone-1" opening world)
      (ended sample link "phone-1" 1 "W2" held_page)
      held_page
handle_ws_message-opens_example =
    handle_ws_message-opens sample link "phone-1" 1 "W2" runtime held_page world runtime-IsLinked
      world-HasPage refl opening refl refl refl refl

-- W0 has lost the page to W1, whose session its close ends.
handle_ws_message-closes_example :
    Closed sample world
      (handle_ws_message sample "phone-1" closing world)
      "phone-1"
      "W0"
      1
      (closes sample link held_page "W1" ∷ [])
handle_ws_message-closes_example =
    handle_ws_message-closes sample link "phone-1" 1 runtime held_page world runtime-IsLinked
      world-HasPage closing "W1" refl refl refl

abbrev pub registration : WiToWsRegistration
registration = record { page_num = 1; ws_id = "W2"; tx = 31 }

step-Spares_example :
    Spares "phone-1" world (step sample bridge world (ws_message "phone-2" closing))
step-Spares_example = step-Spares sample bridge world (ws_message "phone-2" closing) "phone-1" refl
