-- ===== src/Proxy/Tests.antt =====
-- Runs of the proxy on concrete events.
pub mod Sockets
pub mod Sessions
pub mod Reached
use mathlib.Core.Option
use ios_webkit_debug_proxy_r.Base.{
  nat_eq, string_eq, ℕ, zero, suc, ◌+◌, ◌^◌, ◌≤◌, ◌<◌, String, ◌≡◌, ◌≢◌, refl, sym, ap, ◌∙◌, Bool,
  true, false, Option, none, some, List, [], ◌∷◌, ◌++◌, map, arith, Bytes, length, inl, inr, ◌⊎◌,
}
use ios_webkit_debug_proxy_r.Base.Dict.{values}
use ios_webkit_debug_proxy_r.Base.Dict
use ios_webkit_debug_proxy_r.Error.{ok}
use ios_webkit_debug_proxy_r.Device.{web_page}
use ios_webkit_debug_proxy_r.HttpServer.{WsToWiMessage}
use ios_webkit_debug_proxy_r.Plist.{Plist}
use ios_webkit_debug_proxy_r.Plist.Sample.{
  Node, text, dict, number, end, entry, sample, sample-Laws, lookup, update, entries as iter,
}
use ios_webkit_debug_proxy_r.Rpc.{RpcPage}
use ios_webkit_debug_proxy_r.Rpc.Parse.{
  parse_rpc_message, parse_selected, get_required_string, parse_pages, collect_pages, parse_page,
  page_type_of,
}
use ios_webkit_debug_proxy_r.WebInspector.{recv_plist}
use ios_webkit_debug_proxy_r.Proxy.State.{PageInfo, ProxyBridge, World, PortRange}
use ios_webkit_debug_proxy_r.Proxy.Pages.{
  PageTable, new_page, add_page, add_pages, keys_where, remove_where, apply_listing, entries,
  to_entry,
}
use ios_webkit_debug_proxy_r.Proxy.Pages.Table.{IsTable, apply_listing-IsTable}
use ios_webkit_debug_proxy_r.Proxy.Pages.Listing.{Keeps, Shows}
use ios_webkit_debug_proxy_r.Proxy.Pages.Listed.{
  apply_listing-Keeps, apply_listing-lists, apply_listing-Shows, lists,
}
use ios_webkit_debug_proxy_r.Proxy.Devices.{Outside, first_free}
use ios_webkit_debug_proxy_r.Device.{result_os_version}
use ios_webkit_debug_proxy_r.Proxy.Devices.{Inspector, connect_inspector}
use ios_webkit_debug_proxy_r.Proxy.Devices.Partials.{connect_inspector-partials}
use ios_webkit_debug_proxy_r.Proxy.Devices.Ports.{IsFirstFree, first_free_lem}
use ios_webkit_debug_proxy_r.Proxy.Run.{start, Event, attached, wi_event, event_loop, run}
use ios_webkit_debug_proxy_r.Proxy.Invariant.{IsWorld}
use ios_webkit_debug_proxy_r.Proxy.Invariant.Reachable.{
  total_cost, Ends, event_loop-IsWorld, run-clears,
}

abbrev pub range : PortRange
range = record { start = 9222; end = 9322 }

abbrev pub bridge : ProxyBridge
bridge = record {
  device_ports = some range;
  http_service_config = some (record { device_list_port = 9221; frontend = none });
  sim_wi_socket_addr = "localhost:27753";
  has_listener = true;
}

-- One device, and no simulator.
abbrev pub outside : Outside
outside = record {
  can_bind = λ port. true;
  system_port = none;
  simulator = λ addr. none;
  device = λ id.
      some
        (record { stream = 7; device_id = id; device_name = "phone"; device_os_version = 0xe0000 });
  uuid = "C0";
  wi_token = 1;
  server_token = 2;
  ws_to_wi = 3;
  ws_register = 4;
}

abbrev listing : Node
listing = dict (
    entry "__selector" (text "_rpc_applicationSentListing:") (
      entry "__argument"
        (dict (
          entry "WIRApplicationIdentifierKey" (text "PID:7") (
            entry "WIRListingKey"
              (dict (entry "1" (dict (entry "WIRPageIdentifierKey" (number 1) end)) end)) end)))
        end))

abbrev pub events : List (Event sample)
events = attached "phone-1" outside ∷ wi_event "phone-1" (recv_plist listing) ∷ []

pub cost-events : total_cost sample events ≡ 1
unfolding parse_rpc_message parse_selected get_required_string parse_pages collect_pages parse_page
    lookup iter Option.bind
cost-events = refl

event_loop-IsWorld_example :
    IsWorld (total_cost sample events) (event_loop sample bridge outside start events)
event_loop-IsWorld_example =
    event_loop-IsWorld sample bridge range refl outside start events refl refl
      (omega (arith, cost-events))

-- The list's port is free.
run-clears_example : Ends (run sample bridge (λ port. none) outside events)
run-clears_example =
    run-clears sample bridge range refl (λ port. none) outside events (omega (arith, cost-events))

abbrev rpc_page : ℕ → RpcPage
rpc_page page_id = record {
  page_id = page_id;
  page_type = web_page;
  connection_id = none;
  title = some "News";
  url = some "about:news";
}

abbrev empty_table : PageTable
empty_table = record { pages = []; max_page_num = 0 }

empty_table-IsTable : IsTable empty_table
unfolding Dict.get
empty_table-IsTable = record {
  uniq = tt;
  numbered = λ k p got. absurd (cc);
  distinct = λ k j p q got. absurd (cc);
}

-- Two pages of app A under 1 and 2.
abbrev two_pages : PageTable
two_pages = apply_listing "A" (rpc_page 10 ∷ rpc_page 20 ∷ []) empty_table

apply_listing-IsTable_example : IsTable two_pages
apply_listing-IsTable_example =
    apply_listing-IsTable "A" empty_table (rpc_page 10 ∷ rpc_page 20 ∷ []) empty_table-IsTable
      (omega arith)

two_pages-IsTable : IsTable two_pages
two_pages-IsTable =
    apply_listing-IsTable "A" empty_table (rpc_page 10 ∷ rpc_page 20 ∷ []) empty_table-IsTable
      (omega arith)

two_pages-get : Dict.get two_pages.pages 2 ≡ some (new_page 2 "A" (rpc_page 20))
unfolding apply_listing add_pages add_page keys_where remove_where Dict.get Dict.insert
    Dict.remove_all
two_pages-get = refl

two_pages-max : two_pages.max_page_num ≡ 2
unfolding apply_listing add_pages add_page Dict.insert
two_pages-max = refl

-- The second page stays and a third one comes.
abbrev next : List RpcPage
next = rpc_page 20 ∷ rpc_page 30 ∷ []

apply_listing-Keeps_example :
    (q : PageInfo) × (Dict.get (apply_listing "A" next two_pages).pages 2 ≡ some q)
    × Keeps "A" (new_page 2 "A" (rpc_page 20)) q
apply_listing-Keeps_example =
    apply_listing-Keeps "A" two_pages next two_pages-IsTable (omega (arith, two_pages-max)) 2
      (new_page 2 "A" (rpc_page 20)) two_pages-get (inr refl)

next-get : Dict.get (apply_listing "A" next two_pages).pages 3 ≡ some (new_page 3 "A" (rpc_page 30))
unfolding apply_listing add_pages add_page keys_where remove_where Dict.get Dict.insert Dict.remove
    Dict.remove_all Dict.modify
next-get = refl

apply_listing-lists_example : lists next 30 ≡ true
apply_listing-lists_example =
    apply_listing-lists "A" two_pages next two_pages-IsTable (omega (arith, two_pages-max)) 3
      (new_page 3 "A" (rpc_page 30)) next-get refl

apply_listing-Shows_example :
    (k : ℕ) × (p : PageInfo) × (Dict.get (apply_listing "A" next two_pages).pages k ≡ some p)
    × Shows "A" (rpc_page 20) p
apply_listing-Shows_example =
    apply_listing-Shows "A" two_pages [] (rpc_page 30 ∷ []) (rpc_page 20) two_pages-IsTable
      (omega (arith, two_pages-max)) refl

first_free_lem_example : IsFirstFree (9222 ∷ []) 9222 9225 (first_free 3 9222 (9222 ∷ []))
first_free_lem_example = first_free_lem 3 9222 (9222 ∷ [])

version-14 : 0xe0000 ≡ result_os_version (14 ∷ 0 ∷ [])
unfolding result_os_version
version-14 = refl

-- The device runs iOS 14.
connect_inspector-partials_example :
    Option.map
      (λ (i : Inspector). i.codec.partials_supported)
      (connect_inspector bridge "phone-1" outside)
    ≡ some false
connect_inspector-partials_example =
    connect_inspector-partials bridge "phone-1" outside
      (record {
        stream = 7;
        device_id = "phone-1";
        device_name = "phone";
        device_os_version = 0xe0000;
      })
      14 0 [] refl refl version-14
