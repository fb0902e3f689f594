-- ===== src/Rpc/Built.antt =====
-- What a device that reads a built message finds in it.
use ios_webkit_debug_proxy_r.Base.{ℕ, String, ◌≡◌, Bool, false, some, List, [], ◌∷◌, Bytes, All}
use ios_webkit_debug_proxy_r.Error.{ok}
use ios_webkit_debug_proxy_r.Plist.{Plist, Laws}
use ios_webkit_debug_proxy_r.Rpc.{
  RpcSender, build_message, new_args, build_report_identifier, build_get_connected_applications,
  build_forward_get_listing, build_forward_indicate_web_view, build_forward_socket_setup,
  build_forward_socket_data, build_forward_did_close,
}

module _ (p : Plist) where
  open p use {Value, Dictionary, string, of_data, integer, boolean, dictionary, get, from_bytes}

  abbrev pub IsEntry : Dictionary → String × Value → Type 0
  IsEntry dict (key, value) = get dict key ≡ some value

  -- The bytes are a dictionary with the selector and with arguments that hold the sender's
  -- connection and the given entries.
  pub record Carries (s : RpcSender) (selector : String) (entries : List (String × Value))
      (bytes : Bytes) : Type 0 where
    pub top : Dictionary
    pub args : Dictionary
    pub parsed : from_bytes bytes ≡ ok (dictionary top)
    pub selected : get top "__selector" ≡ some (string selector)
    pub argument : get top "__argument" ≡ some (dictionary args)
    pub connection : get args "WIRConnectionIdentifierKey" ≡ some (string s.connection_id)
    pub holds : All (IsEntry args) entries

  -- The seven messages, each with its selector and its arguments under the keys of the protocol.
  abbrev pub AllBuilt : RpcSender → String → ℕ → String → Bytes → Bool → Type 0
  AllBuilt s app_id page_id sender_id bytes is_enabled =
      Carries s "_rpc_reportIdentifier:" [] (build_report_identifier p s)
      × Carries s "_rpc_getConnectedApplications:" [] (build_get_connected_applications p s)
      × Carries s "_rpc_forwardGetListing:" (("WIRApplicationIdentifierKey", string app_id) ∷ [])
          (build_forward_get_listing p s app_id)
      × Carries s "_rpc_forwardIndicateWebView:"
          (("WIRApplicationIdentifierKey", string app_id)
            ∷ ("WIRPageIdentifierKey", integer page_id)
            ∷ ("WIRIndicateEnabledKey", boolean is_enabled)
            ∷ [])
          (build_forward_indicate_web_view p s app_id page_id is_enabled)
      × Carries s "_rpc_forwardSocketSetup:"
          (("WIRApplicationIdentifierKey", string app_id)
            ∷ ("WIRPageIdentifierKey", integer page_id)
            ∷ ("WIRSenderKey", string sender_id)
            ∷ ("WIRAutomaticallyPause", boolean false)
            ∷ [])
          (build_forward_socket_setup p s app_id page_id sender_id)
      × Carries s "_rpc_forwardSocketData:"
          (("WIRApplicationIdentifierKey", string app_id)
            ∷ ("WIRPageIdentifierKey", integer page_id)
            ∷ ("WIRSenderKey", string sender_id)
            ∷ ("WIRSocketDataKey", of_data bytes)
            ∷ [])
          (build_forward_socket_data p s app_id page_id sender_id bytes)
      × Carries s "_rpc_forwardDidClose:"
          (("WIRApplicationIdentifierKey", string app_id)
            ∷ ("WIRPageIdentifierKey", integer page_id)
            ∷ ("WIRSenderKey", string sender_id)
            ∷ [])
          (build_forward_did_close p s app_id page_id sender_id)

  module _ (laws : Laws p) (s : RpcSender) where
    Carries-build_message :
        (selector : String) (args : Dictionary) (entries : List (String × Value))
        → get args "WIRConnectionIdentifierKey" ≡ some (string s.connection_id)
        → All (IsEntry args) entries
        → Carries s selector entries (p.to_writer_binary (build_message p s selector args))
    unfolding build_message
    Carries-build_message selector args entries connection holds = record {
      top = p.insert (p.insert p.new "__selector" (string selector)) "__argument" (dictionary args);
      args = args;
      parsed = laws.from_bytes-to_writer_binary _;
      selected = simp laws.get-insert;
      argument = simp laws.get-insert;
      connection = connection;
      holds = holds;
    }

    -- Where the plist crate meets its laws, each of the seven messages to a device parses to a
    -- dictionary with its selector and, under the keys of the protocol, the sender's connection
    -- and the arguments.
    pub built-Carries :
        (app_id : String) (page_id : ℕ) (sender_id : String) (bytes : Bytes) (is_enabled : Bool)
        → AllBuilt s app_id page_id sender_id bytes is_enabled
    unfolding new_args build_report_identifier build_get_connected_applications
        build_forward_get_listing build_forward_indicate_web_view build_forward_socket_setup
        build_forward_socket_data build_forward_did_close
    built-Carries app_id page_id sender_id bytes is_enabled = (
      Carries-build_message _ _ _ (simp laws.get-insert) tt,
      Carries-build_message _ _ _ (simp laws.get-insert) tt,
      Carries-build_message _ _ _ (simp laws.get-insert) (simp laws.get-insert, tt),
      Carries-build_message _ _ _ (simp laws.get-insert)
          (simp laws.get-insert, (simp laws.get-insert, (simp laws.get-insert, tt))),
      Carries-build_message _ _ _ (simp laws.get-insert) (
        simp laws.get-insert,
        (simp laws.get-insert, (simp laws.get-insert, (simp laws.get-insert, tt))),
      ),
      Carries-build_message _ _ _ (simp laws.get-insert) (
        simp laws.get-insert,
        (simp laws.get-insert, (simp laws.get-insert, (simp laws.get-insert, tt))),
      ),
      Carries-build_message _ _ _ (simp laws.get-insert)
          (simp laws.get-insert, (simp laws.get-insert, (simp laws.get-insert, tt))),
    )
