-- ===== src/Rpc/Parse.antt =====
-- src/rpc.rs: parse_rpc_message and its helpers.
use mathlib.Core.Option
use Prim.Native.String.{◌++◌ as concat}
use ios_webkit_debug_proxy_r.Base.{
  ◌%◌, ◌^◌, String, false, Option, none, some, List, [], ◌∷◌, ◌==◌, string_eq, if◌then◌else◌, Bytes,
}
use ios_webkit_debug_proxy_r.Error.{rpc, Result, ok, err, ◌>>=◌, ok_or}
use ios_webkit_debug_proxy_r.Device.{PageType, unknown_page, java_script, web_page}
use ios_webkit_debug_proxy_r.Plist.{Plist}
use ios_webkit_debug_proxy_r.Rpc.{
  RpcApp, RpcPage, RpcMessage, report_setup, report_connected_application_list,
  application_connected, application_disconnected, application_sent_listing, application_sent_data,
  application_updated, unknown,
}

-- `Option::unwrap_or`
abbrev pub unwrap_or {ℓ} : {A : Type ℓ} → Option A → A → A
unwrap_or (some a) d = a
unwrap_or none d = d

-- `Result::or_else` over the alternative's result.
abbrev or_else {ℓ} : {A : Type ℓ} → Result A → Result A → Result A
or_else (ok a) r = ok a
or_else (err e) r = r

module _ (p : Plist) where
  open p use {
    Value, Dictionary, as_string, as_data, as_unsigned_integer, as_boolean, as_dictionary, iter,
  }

  -- `dict.get(key).and_then(f)`
  abbrev pub field {ℓ} : {A : Type ℓ} → Dictionary → String → (Value → Option A) → Option A
  field dict key f = Option.bind (p.get dict key) f

  unfoldable pub get_required_string : Dictionary → String → Result String
  get_required_string dict key =
      ok_or (field dict key as_string) (rpc (concat "Missing required string field: " key))

  unfoldable pub get_required_data : Dictionary → String → Result Bytes
  get_required_data dict key =
      ok_or (field dict key as_data) (rpc (concat "Missing required data field: " key))

  unfoldable pub parse_app : Dictionary → Result RpcApp
  parse_app dict = do
    app_id ← get_required_string dict "WIRApplicationIdentifierKey"
    ok (record {
      app_id = app_id;
      app_name = unwrap_or (field dict "WIRApplicationNameKey" as_string) "";
      is_proxy = unwrap_or (field dict "WIRIsApplicationProxyKey" as_boolean) false;
    })

  abbrev pub push_app : Result RpcApp → List RpcApp → List RpcApp
  push_app (ok app) apps = app ∷ apps
  push_app (err e) apps = apps

  -- The loop of `parse_apps`: what is no dictionary, or no app, is left out.
  unfoldable pub collect_apps : List (String × Value) → List RpcApp
  collect_apps [] = []
  collect_apps ((key, value) ∷ rest) =
      let apps : List RpcApp = collect_apps rest in
      elim (as_dictionary value) [ some info ↦ push_app (parse_app info) apps | none ↦ apps ]

  unfoldable pub parse_apps : Dictionary → Result (List RpcApp)
  parse_apps args = do
    app_dict ←
        ok_or (field args "WIRApplicationDictionaryKey" as_dictionary)
          (rpc "Missing WIRApplicationDictionaryKey")
    ok (collect_apps (iter app_dict))

  unfoldable pub page_type_of : String → PageType
  page_type_of ty =
      if ty == "WIRTypeWebPage"
      then web_page
      else if ty == "WIRTypeJavaScript"
      then java_script
      else unknown_page

  unfoldable pub parse_page : Dictionary → Result RpcPage
  parse_page page_dict = do
    page_id ←
        ok_or (field page_dict "WIRPageIdentifierKey" as_unsigned_integer)
          (rpc "Missing WIRPageIdentifierKey")
    ok (record {
      page_id = page_id % 2 ^ 32;
      page_type =
          unwrap_or (Option.map page_type_of (field page_dict "WIRTypeKey" as_string)) unknown_page;
      connection_id = field page_dict "WIRConnectionIdentifierKey" as_string;
      title = field page_dict "WIRTitleKey" as_string;
      url = field page_dict "WIRURLKey" as_string;
    })

  -- The loop of `parse_pages`: what is no dictionary is left out; a page without a number ends it.
  unfoldable pub collect_pages : List (String × Value) → Result (List RpcPage)
  collect_pages [] = ok []
  collect_pages ((key, value) ∷ rest) = elim (as_dictionary value) [
    | some page_dict ↦ do page ← parse_page page_dict; pages ← collect_pages rest; ok (page ∷ pages)
    | none ↦ collect_pages rest
  ]

  unfoldable pub parse_pages : Value → Result (List RpcPage)
  parse_pages listing = do
    dict ← ok_or (as_dictionary listing) (rpc "WIRListingKey is not a dictionary")
    collect_pages (iter dict)

  unfoldable pub parse_listing : Option Value → Result (List RpcPage)
  parse_listing (some listing) = parse_pages listing
  parse_listing none = ok []

  -- The `match` of `parse_rpc_message`.
  unfoldable pub parse_selected : String → Dictionary → Result RpcMessage
  unfolding parse_listing
  parse_selected selector args =
      if selector == "_rpc_reportSetup:"
      then ok report_setup
      else if selector == "_rpc_reportConnectedApplicationList:"
      then (do apps ← parse_apps args; ok (report_connected_application_list apps))
      else if selector == "_rpc_applicationConnected:"
      then (do app ← parse_app args; ok (application_connected app))
      else if selector == "_rpc_applicationDisconnected:"
      then (do app ← parse_app args; ok (application_disconnected app))
      else if selector == "_rpc_applicationSentListing:"
      then (do
        app_id ← get_required_string args "WIRApplicationIdentifierKey"
        pages ← parse_listing (p.get args "WIRListingKey")
        ok (application_sent_listing app_id pages))
      else if selector == "_rpc_applicationSentData:"
      then (do
        app_id ← get_required_string args "WIRApplicationIdentifierKey"
        dest_id ← get_required_string args "WIRDestinationKey"
        bytes ← get_required_data args "WIRMessageDataKey"
        ok (application_sent_data app_id dest_id bytes))
      else if selector == "_rpc_applicationUpdated:"
      then (do
        app_id ←
            or_else (get_required_string args "WIRHostApplicationIdentifierKey")
              (get_required_string args "WIRApplicationNameKey")
        dest_id ← get_required_string args "WIRApplicationIdentifierKey"
        ok (application_updated app_id dest_id))
      else ok (unknown selector)

  unfoldable pub parse_rpc_message : Value → Result RpcMessage
  parse_rpc_message rpc_dict = do
    dict ← ok_or (as_dictionary rpc_dict) (rpc "RPC message is not a dictionary")
    selector ← ok_or (field dict "__selector" as_string) (rpc "Missing __selector")
    args ← ok_or (field dict "__argument" as_dictionary) (rpc "Missing __argument")
    parse_selected selector args
