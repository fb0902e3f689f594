-- ===== src/Proxy/Tests/Reached.antt =====
-- A run that attaches a device and lists its page, and what holds of the world after it.
use mathlib.Core.Option
use ios_webkit_debug_proxy_r.Base.{
  String, ◌≡◌, refl, false, none, some, List, [], ◌∷◌, arith, nat_eq, string_eq,
}
use ios_webkit_debug_proxy_r.Base.Dict
use ios_webkit_debug_proxy_r.HttpServer.{WsToWiMessage}
use ios_webkit_debug_proxy_r.HttpServer.Connection.{opening, data_message}
use ios_webkit_debug_proxy_r.Plist.Sample.{sample, lookup, entries as iter}
use ios_webkit_debug_proxy_r.WebInspector.{new_codec}
use ios_webkit_debug_proxy_r.Rpc.Parse.{
  parse_rpc_message, parse_selected, get_required_string, parse_pages, collect_pages, parse_page,
  page_type_of, parse_listing,
}
use ios_webkit_debug_proxy_r.Proxy.State.{PageInfo, DeviceRuntime, World, emit}
use ios_webkit_debug_proxy_r.Proxy.Pages.{
  add_page, add_pages, keys_where, remove_where, apply_listing, sync_pages,
}
use ios_webkit_debug_proxy_r.Proxy.Messages.{
  handle_page_listing, handle_wi_event, handle_rpc_message, publish_pages,
}
use ios_webkit_debug_proxy_r.Proxy.Devices.{
  connect_device, connect_inspector, allocate_port, first_free, store_device,
  notify_device_connected, notify_page_list_changed, new_runtime, update_device_list,
}
use ios_webkit_debug_proxy_r.Proxy.Run.{start, event_loop, run_events, step}
use ios_webkit_debug_proxy_r.Proxy.Invariant.{IsWorld}
use ios_webkit_debug_proxy_r.Proxy.Invariant.Reachable.{total_cost, event_loop-IsWorld}
use ios_webkit_debug_proxy_r.Proxy.Invariant.Shared.{Shares, event_loop-Shares}
use ios_webkit_debug_proxy_r.Proxy.Sockets.{find_page, handle_ws_message}
use ios_webkit_debug_proxy_r.Proxy.Sockets.Frames.{handle_all}
use ios_webkit_debug_proxy_r.Proxy.Sockets.Sessions.{HasPage, Link, IsLinked, carries}
use ios_webkit_debug_proxy_r.Proxy.Sockets.Sessions.Carried.{handle_ws_message-reaches}
use ios_webkit_debug_proxy_r.Proxy.Tests.{bridge, range, outside, events, cost-events}
use ios_webkit_debug_proxy_r.Proxy.Tests.Sockets.{runtime, held_page}

abbrev reached : World
reached = event_loop sample bridge outside start events

abbrev device : DeviceRuntime
device = elim (Dict.get reached.devices "phone-1") [ some r ↦ r | none ↦ runtime ]

abbrev page : PageInfo
page = elim (find_page 1 device.pages) [ some q ↦ q | none ↦ held_page ]

abbrev link : Link
link = record {
  sender = record { connection_id = "C0" };
  handle = record { write_tx = 7 };
  codec = new_codec false false;
}

reached_lem : HasPage reached "phone-1" device 1 page × IsLinked device link
unfolding Dict.get Dict.insert Dict.contains_key Dict.contains Dict.modify Dict.remove_all
    Option.bind event_loop run_events step connect_device allocate_port first_free connect_inspector
    store_device new_runtime notify_device_connected update_device_list handle_wi_event
    parse_rpc_message parse_selected get_required_string parse_pages collect_pages parse_page
    parse_listing page_type_of lookup iter handle_rpc_message handle_page_listing publish_pages
    notify_page_list_changed sync_pages apply_listing add_pages add_page keys_where remove_where
reached_lem =
    (record { device = refl; page = refl }, record { sender = refl; handle = refl; codec = refl })

event_loop-Shares_example : Shares device
event_loop-Shares_example =
    event_loop-Shares sample bridge range refl outside start events "phone-1" device refl refl
      (omega (arith, cost-events)) reached_lem.0.device

reached-IsWorld : IsWorld (total_cost sample events) reached
reached-IsWorld =
    event_loop-IsWorld sample bridge range refl outside start events refl refl
      (omega (arith, cost-events))

-- W0 sends data for the page, W3 opens a page of the same number of another device, and W2 opens
-- its own again.
abbrev messages : List (String × WsToWiMessage)
messages =
    ("phone-1", data_message 1 "W0" (49 ∷ []))
    ∷ ("phone-2", opening 1 "W3")
    ∷ ("phone-1", opening 1 "W2")
    ∷ []

handle_ws_message-reaches_example :
    handle_ws_message sample "phone-1"
      (data_message 1 "W2" (123 ∷ 125 ∷ []))
      (handle_all sample (("phone-1", opening 1 "W2") ∷ messages) reached)
    ≡ emit
        (handle_all sample (("phone-1", opening 1 "W2") ∷ messages) reached)
        (carries sample link page "W2" (123 ∷ 125 ∷ []))
handle_ws_message-reaches_example =
    handle_ws_message-reaches sample link "phone-1" 1 device page (reached_lem.1) reached
      (total_cost sample events) "W2" messages (123 ∷ 125 ∷ []) reached-IsWorld (reached_lem.0)
      (refl, (refl, (refl, tt))) refl
