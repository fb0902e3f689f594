-- ===== src/Rpc.antt =====
-- src/rpc.rs: the messages to and from a device's WebInspector. The messages out are built here,
-- those that come in are parsed in Parse.
pub mod Parse
pub mod Built
pub mod Protocol
pub mod Received
pub mod Tests
use ios_webkit_debug_proxy_r.Base.{ℕ, String, Bool, false, Option, List, Bytes}
use ios_webkit_debug_proxy_r.Device.{PageType}
use ios_webkit_debug_proxy_r.Plist.{Plist}

pub record RpcApp : Type 0 where
  pub app_id : String
  pub app_name : String
  pub is_proxy : Bool

pub record RpcPage : Type 0 where
  pub page_id : ℕ
  pub page_type : PageType
  pub connection_id : Option String
  pub title : Option String
  pub url : Option String

pub record RpcSender : Type 0 where
  pub connection_id : String

pub data RpcMessage : Type 0 where
  report_setup : RpcMessage
  report_connected_application_list : List RpcApp → RpcMessage
  application_connected : RpcApp → RpcMessage
  application_disconnected : RpcApp → RpcMessage
  -- app_id, pages
  application_sent_listing : String → List RpcPage → RpcMessage
  -- app_id, dest_id, data
  application_sent_data : String → String → Bytes → RpcMessage
  -- app_id, dest_id
  application_updated : String → String → RpcMessage
  unknown : String → RpcMessage

module _ (p : Plist) where
  open p use {
    Value, Dictionary, string, of_data, integer, boolean, dictionary, new, insert, from_bytes,
    to_writer_binary,
  }

  abbrev pub plist_to_bin : Value → Bytes
  plist_to_bin value = to_writer_binary value

  unfoldable pub build_message : RpcSender → String → Dictionary → Value
  build_message s selector args =
      dictionary (insert (insert new "__selector" (string selector)) "__argument" (dictionary args))

  unfoldable pub new_args : RpcSender → Dictionary
  new_args s = insert new "WIRConnectionIdentifierKey" (string s.connection_id)

  unfoldable pub build_report_identifier : RpcSender → Bytes
  build_report_identifier s = plist_to_bin (build_message s "_rpc_reportIdentifier:" (new_args s))

  unfoldable pub build_get_connected_applications : RpcSender → Bytes
  build_get_connected_applications s =
      plist_to_bin (build_message s "_rpc_getConnectedApplications:" (new_args s))

  unfoldable pub build_forward_get_listing : RpcSender → String → Bytes
  build_forward_get_listing s app_id =
      let args : Dictionary = insert (new_args s) "WIRApplicationIdentifierKey" (string app_id) in
      plist_to_bin (build_message s "_rpc_forwardGetListing:" args)

  unfoldable pub build_forward_indicate_web_view : RpcSender → String → ℕ → Bool → Bytes
  build_forward_indicate_web_view s app_id page_id is_enabled =
      let app : Dictionary = insert (new_args s) "WIRApplicationIdentifierKey" (string app_id) in
      let page : Dictionary = insert app "WIRPageIdentifierKey" (integer page_id) in
      let args : Dictionary = insert page "WIRIndicateEnabledKey" (boolean is_enabled) in
      plist_to_bin (build_message s "_rpc_forwardIndicateWebView:" args)

  unfoldable pub build_forward_socket_setup : RpcSender → String → ℕ → String → Bytes
  build_forward_socket_setup s app_id page_id sender_id =
      let app : Dictionary = insert (new_args s) "WIRApplicationIdentifierKey" (string app_id) in
      let pause : Dictionary = insert app "WIRAutomaticallyPause" (boolean false) in
      let page : Dictionary = insert pause "WIRPageIdentifierKey" (integer page_id) in
      let args : Dictionary = insert page "WIRSenderKey" (string sender_id) in
      plist_to_bin (build_message s "_rpc_forwardSocketSetup:" args)

  unfoldable pub build_forward_socket_data : RpcSender → String → ℕ → String → Bytes → Bytes
  build_forward_socket_data s app_id page_id sender_id bytes =
      let app : Dictionary = insert (new_args s) "WIRApplicationIdentifierKey" (string app_id) in
      let page : Dictionary = insert app "WIRPageIdentifierKey" (integer page_id) in
      let sender : Dictionary = insert page "WIRSenderKey" (string sender_id) in
      let args : Dictionary = insert sender "WIRSocketDataKey" (of_data bytes) in
      plist_to_bin (build_message s "_rpc_forwardSocketData:" args)

  unfoldable pub build_forward_did_close : RpcSender → String → ℕ → String → Bytes
  build_forward_did_close s app_id page_id sender_id =
      let app : Dictionary = insert (new_args s) "WIRApplicationIdentifierKey" (string app_id) in
      let page : Dictionary = insert app "WIRPageIdentifierKey" (integer page_id) in
      let args : Dictionary = insert page "WIRSenderKey" (string sender_id) in
      plist_to_bin (build_message s "_rpc_forwardDidClose:" args)
