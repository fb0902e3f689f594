-- ===== src/Rpc/Tests.antt =====
-- A message on concrete arguments.
use ios_webkit_debug_proxy_r.Base.{◌≡◌, refl, true, none, some, [], ◌∷◌, arith}
use ios_webkit_debug_proxy_r.Error.{ok}
use ios_webkit_debug_proxy_r.Device.{web_page}
use ios_webkit_debug_proxy_r.Plist.Sample.{
  sample, sample-Laws, Fields, text, number, dict, end, entry, lookup, entries,
}
use ios_webkit_debug_proxy_r.Rpc.{RpcSender, RpcPage, application_sent_listing, build_message}
use ios_webkit_debug_proxy_r.Rpc.Parse.{parse_rpc_message}
use ios_webkit_debug_proxy_r.Rpc.Built.{AllBuilt, built-Carries}
use ios_webkit_debug_proxy_r.Rpc.Protocol.{Holds}
use ios_webkit_debug_proxy_r.Rpc.Received.{parse_rpc_message-Holds}

abbrev sender : RpcSender
sender = record { connection_id = "C0" }

built-Carries_example : AllBuilt sample sender "PID:7" 3 "S1" (1 ∷ 2 ∷ []) true
built-Carries_example = built-Carries sample sample-Laws sender "PID:7" 3 "S1" (1 ∷ 2 ∷ []) true

abbrev page_fields : Fields
page_fields =
    entry "WIRPageIdentifierKey" (number 4)
      (entry "WIRTypeKey" (text "WIRTypeWebPage") (entry "WIRTitleKey" (text "News") end))

abbrev arguments : Fields
arguments =
    entry "WIRApplicationIdentifierKey" (text "PID:7")
      (entry "WIRListingKey" (dict (entry "4" (dict page_fields) end)) end)

abbrev news : RpcPage
news = record {
  page_id = 4;
  page_type = web_page;
  connection_id = none;
  title = some "News";
  url = none;
}

arguments-Holds : Holds sample arguments (application_sent_listing "PID:7" (news ∷ []))
unfolding lookup entries
arguments-Holds = (
  refl,
  (
    entry "4" (dict page_fields) end,
    refl,
    (
      (
        page_fields,
        refl,
        record {
          small = omega arith;
          page_id = refl;
          page_type = refl;
          connection_id = refl;
          title = refl;
          url = refl;
        },
      ),
      tt,
    ),
  ),
)

parse_rpc_message-Holds_example :
    parse_rpc_message sample (build_message sample sender "_rpc_applicationSentListing:" arguments)
    ≡ ok (application_sent_listing "PID:7" (news ∷ []))
parse_rpc_message-Holds_example =
    parse_rpc_message-Holds sample sample-Laws sender arguments
      (application_sent_listing "PID:7" (news ∷ [])) arguments-Holds
