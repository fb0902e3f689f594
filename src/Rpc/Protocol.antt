-- ===== src/Rpc/Protocol.antt =====
-- The messages of a device as the protocol has them: their selectors and the keys of their arguments.
use mathlib.Core.Option
use ios_webkit_debug_proxy_r.Base.{
  ◌<◌, ◌^◌, String, ◌≡◌, false, some, List, [], ◌∷◌, ◌==◌, string_eq,
}
use ios_webkit_debug_proxy_r.Device.{PageType, unknown_page, java_script, web_page}
use ios_webkit_debug_proxy_r.Plist.{Plist}
use ios_webkit_debug_proxy_r.Rpc.{
  RpcApp, RpcPage, RpcMessage, report_setup, report_connected_application_list,
  application_connected, application_disconnected, application_sent_listing, application_sent_data,
  application_updated, unknown,
}

-- The selectors that the proxy knows.
abbrev pub selectors : List String
selectors =
    "_rpc_reportSetup:" ∷ "_rpc_reportConnectedApplicationList:" ∷ "_rpc_applicationConnected:"
    ∷ "_rpc_applicationDisconnected:" ∷ "_rpc_applicationSentListing:" ∷ "_rpc_applicationSentData:"
    ∷ "_rpc_applicationUpdated:" ∷ []

abbrev pub selector_of : RpcMessage → String
selector_of report_setup = "_rpc_reportSetup:"
selector_of (report_connected_application_list apps) = "_rpc_reportConnectedApplicationList:"
selector_of (application_connected app) = "_rpc_applicationConnected:"
selector_of (application_disconnected app) = "_rpc_applicationDisconnected:"
selector_of (application_sent_listing app_id pages) = "_rpc_applicationSentListing:"
selector_of (application_sent_data app_id dest_id bytes) = "_rpc_applicationSentData:"
selector_of (application_updated app_id dest_id) = "_rpc_applicationUpdated:"
selector_of (unknown selector) = selector

abbrev pub type_name : PageType → String
type_name web_page = "WIRTypeWebPage"
type_name java_script = "WIRTypeJavaScript"
type_name unknown_page = "WIRTypeOther"

-- None of these texts.
abbrev pub IsOther : String → List String → Type 0
IsOther selector [] = Unit
IsOther selector (s ∷ ss) = ((selector == s) ≡ false) × IsOther selector ss

module _ (p : Plist) where
  open p use {Value, Dictionary, string, of_data, integer, boolean, dictionary, get, iter}

  -- The dictionary of an app, of a page, and of several under any keys.
  abbrev pub HoldsApp : Dictionary → RpcApp → Type 0
  HoldsApp dict app =
      (get dict "WIRApplicationIdentifierKey" ≡ some (string app.app_id))
      × (get dict "WIRApplicationNameKey" ≡ some (string app.app_name))
      × (get dict "WIRIsApplicationProxyKey" ≡ some (boolean app.is_proxy))

  pub record HoldsPage (dict : Dictionary) (page : RpcPage) : Type 0 where
    pub small : page.page_id < 2 ^ 32
    pub page_id : get dict "WIRPageIdentifierKey" ≡ some (integer page.page_id)
    pub page_type : get dict "WIRTypeKey" ≡ some (string (type_name page.page_type))
    pub connection_id : get dict "WIRConnectionIdentifierKey" ≡ Option.map string page.connection_id
    pub title : get dict "WIRTitleKey" ≡ Option.map string page.title
    pub url : get dict "WIRURLKey" ≡ Option.map string page.url

  abbrev pub HoldsApps : List (String × Value) → List RpcApp → Type 0
  HoldsApps [] [] = Unit
  HoldsApps ((key, value) ∷ entries) (app ∷ apps) =
      ((dict : Dictionary) × (value ≡ dictionary dict) × HoldsApp dict app) × HoldsApps entries apps
  HoldsApps [] (app ∷ apps) = ⊥
  HoldsApps (entry ∷ entries) [] = ⊥

  abbrev pub HoldsPages : List (String × Value) → List RpcPage → Type 0
  HoldsPages [] [] = Unit
  HoldsPages ((key, value) ∷ entries) (page ∷ pages) =
      ((dict : Dictionary) × (value ≡ dictionary dict) × HoldsPage dict page)
      × HoldsPages entries pages
  HoldsPages [] (page ∷ pages) = ⊥
  HoldsPages (entry ∷ entries) [] = ⊥

  -- The arguments of a message, as the protocol has them.
  abbrev pub Holds : Dictionary → RpcMessage → Type 0
  Holds args report_setup = Unit
  Holds args (report_connected_application_list apps) =
      (dict : Dictionary) × (get args "WIRApplicationDictionaryKey" ≡ some (dictionary dict))
      × HoldsApps (iter dict) apps
  Holds args (application_connected app) = HoldsApp args app
  Holds args (application_disconnected app) = HoldsApp args app
  Holds args (application_sent_listing app_id pages) =
      (get args "WIRApplicationIdentifierKey" ≡ some (string app_id))
      × ((dict : Dictionary) × (get args "WIRListingKey" ≡ some (dictionary dict))
          × HoldsPages (iter dict) pages)
  Holds args (application_sent_data app_id dest_id bytes) =
      (get args "WIRApplicationIdentifierKey" ≡ some (string app_id))
      × (get args "WIRDestinationKey" ≡ some (string dest_id))
      × (get args "WIRMessageDataKey" ≡ some (of_data bytes))
  Holds args (application_updated app_id dest_id) =
      (get args "WIRHostApplicationIdentifierKey" ≡ some (string app_id))
      × (get args "WIRApplicationIdentifierKey" ≡ some (string dest_id))
  Holds args (unknown selector) = IsOther selector selectors
