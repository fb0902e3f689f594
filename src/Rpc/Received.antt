-- ===== src/Rpc/Received.antt =====
-- What parse_rpc_message reads in the messages of a device.
use mathlib.Core.Option
use ios_webkit_debug_proxy_r.Base.{
  ◌%◌, ◌^◌, String, ◌≡◌, refl, Option, none, some, List, [], ◌∷◌, arith, string_eq,
}
use ios_webkit_debug_proxy_r.Error.{ok}
use ios_webkit_debug_proxy_r.Device.{PageType, unknown_page, java_script, web_page}
use ios_webkit_debug_proxy_r.Plist.{Plist, Laws}
use ios_webkit_debug_proxy_r.Rpc.{
  RpcApp, RpcPage, RpcSender, RpcMessage, report_setup, report_connected_application_list,
  application_connected, application_disconnected, application_sent_listing, application_sent_data,
  application_updated, unknown, build_message,
}
use ios_webkit_debug_proxy_r.Rpc.Parse.{
  field, get_required_string, get_required_data, parse_app, collect_apps, parse_apps, page_type_of,
  parse_page, collect_pages, parse_pages, parse_listing, parse_selected, parse_rpc_message,
}
use ios_webkit_debug_proxy_r.Rpc.Protocol.{
  selector_of, type_name, HoldsApp, HoldsPage, HoldsApps, HoldsPages, Holds,
}

module _ (p : Plist) (laws : Laws p) where
  open p use {Value, Dictionary, string, of_data, integer, boolean, dictionary, get, iter}

  required_string :
      (dict : Dictionary) (key s : String)
      → get dict key ≡ some (string s)
      → get_required_string p dict key ≡ ok s
  unfolding get_required_string Option.bind
  required_string dict key s h = rw (h, laws.as_string-string s)

  parse_app-HoldsApp :
      (dict : Dictionary) (app : RpcApp) → HoldsApp p dict app → parse_app p dict ≡ ok app
  unfolding parse_app Option.bind
  parse_app-HoldsApp dict app (app_id, app_name, is_proxy) = rw (
    required_string dict "WIRApplicationIdentifierKey" app.app_id app_id,
    app_name,
    is_proxy,
    laws.as_string-string app.app_name,
    laws.as_boolean-boolean app.is_proxy,
  )

  collect_apps-HoldsApps :
      (entries : List (String × Value)) (apps : List RpcApp)
      → HoldsApps p entries apps
      → collect_apps p entries ≡ apps
  unfolding collect_apps
  collect_apps-HoldsApps [] [] h = refl
  collect_apps-HoldsApps [] (app ∷ apps) h = absurd h
  collect_apps-HoldsApps (entry ∷ entries) [] h = absurd h
  collect_apps-HoldsApps ((key, value) ∷ entries) (app ∷ apps) ((dict, same, held), others) = rw (
    same,
    laws.as_dictionary-dictionary dict,
    parse_app-HoldsApp dict app held,
    collect_apps-HoldsApps entries apps others,
    collect_apps,
  )

  optional_string :
      (dict : Dictionary) (key : String) (s : Option String)
      → get dict key ≡ Option.map string s
      → field p dict key p.as_string ≡ s
  unfolding Option.bind
  optional_string dict key none h = rw h
  optional_string dict key (some s) h = rw (h, laws.as_string-string s)

  page_type_of-type_name : (t : PageType) → page_type_of p (type_name t) ≡ t
  unfolding page_type_of
  page_type_of-type_name web_page = refl
  page_type_of-type_name java_script = refl
  page_type_of-type_name unknown_page = refl

  parse_page-HoldsPage :
      (dict : Dictionary) (page : RpcPage) → HoldsPage p dict page → parse_page p dict ≡ ok page
  unfolding parse_page Option.bind
  parse_page-HoldsPage dict page v =
      let whole : page.page_id % 2 ^ 32 ≡ page.page_id = omega (arith, v.small) in
      rw (
        v.page_id,
        laws.as_unsigned_integer-integer page.page_id,
        whole,
        v.page_type,
        laws.as_string-string (type_name page.page_type),
        page_type_of-type_name page.page_type,
        optional_string dict "WIRConnectionIdentifierKey" page.connection_id v.connection_id,
        optional_string dict "WIRTitleKey" page.title v.title,
        optional_string dict "WIRURLKey" page.url v.url,
      )

  collect_pages-HoldsPages :
      (entries : List (String × Value)) (pages : List RpcPage)
      → HoldsPages p entries pages
      → collect_pages p entries ≡ ok pages
  unfolding collect_pages
  collect_pages-HoldsPages [] [] h = refl
  collect_pages-HoldsPages [] (page ∷ pages) h = absurd h
  collect_pages-HoldsPages (entry ∷ entries) [] h = absurd h
  collect_pages-HoldsPages ((key, value) ∷ entries) (page ∷ pages) ((dict, same, held), others) =
      rw (
        same,
        laws.as_dictionary-dictionary dict,
        parse_page-HoldsPage dict page held,
        collect_pages-HoldsPages entries pages others,
        collect_pages,
      )

  parse_selected-Holds :
      (args : Dictionary) (msg : RpcMessage)
      → Holds p args msg
      → parse_selected p (selector_of msg) args ≡ ok msg
  unfolding parse_selected parse_apps parse_pages parse_listing get_required_data Option.bind
  parse_selected-Holds args report_setup h = refl
  parse_selected-Holds args (report_connected_application_list apps) (dict, listed, held) =
      rw (listed, laws.as_dictionary-dictionary dict, collect_apps-HoldsApps (iter dict) apps held)
  parse_selected-Holds args (application_connected app) h = rw (parse_app-HoldsApp args app h)
  parse_selected-Holds args (application_disconnected app) h = rw (parse_app-HoldsApp args app h)
  parse_selected-Holds args (application_sent_listing app_id pages) (app, (dict, listed, held)) =
      rw (
        required_string args "WIRApplicationIdentifierKey" app_id app,
        listed,
        laws.as_dictionary-dictionary dict,
        collect_pages-HoldsPages (iter dict) pages held,
      )
  parse_selected-Holds args (application_sent_data app_id dest_id bytes) (app, dest, payload) = rw (
    required_string args "WIRApplicationIdentifierKey" app_id app,
    required_string args "WIRDestinationKey" dest_id dest,
    payload,
    laws.as_data-of_data bytes,
  )
  parse_selected-Holds args (application_updated app_id dest_id) (app, dest) = rw (
    required_string args "WIRHostApplicationIdentifierKey" app_id app,
    required_string args "WIRApplicationIdentifierKey" dest_id dest,
  )
  parse_selected-Holds args (unknown selector) h =
      rw (h.0, h.1.0, h.1.1.0, h.1.1.1.0, h.1.1.1.1.0, h.1.1.1.1.1.0, h.1.1.1.1.1.1.0)

  -- Where the plist crate meets its laws, a message of a device, under its selector and with its
  -- arguments under the keys of the protocol, is parsed as that message: of an application list
  -- its apps in order, of a page listing its pages in order with numbers below 2 ^ 32, and of a
  -- selector that the proxy does not know the selector.
  pub parse_rpc_message-Holds :
      (s : RpcSender) (args : Dictionary) (msg : RpcMessage)
      → Holds p args msg
      → parse_rpc_message p (build_message p s (selector_of msg) args) ≡ ok msg
  unfolding parse_rpc_message build_message Option.bind
  parse_rpc_message-Holds s args msg held = simp (
    laws.as_dictionary-dictionary,
    laws.get-insert,
    laws.as_string-string,
    parse_selected-Holds args msg held,
  )
