-- ===== src/Proxy/Sockets/Frames.antt =====
-- The messages of clients leave what neither attaching nor detaching changes.
use mathlib.Core.Option
use mathlib.Core.Option.{none-ne-some}
use ios_webkit_debug_proxy_r.Base.{
  ℕ, String, ◌≡◌, refl, sym, ap, subst, ◌∙◌, Bool, true, false, Option, some, List, [], ◌∷◌, ◌==◌,
  nat_eq, string_eq, str_eq_iff, is_empty, if◌then◌else◌, Option-cases, Bool-cases, inl, inr, Bytes,
  All,
}
use ios_webkit_debug_proxy_r.Base.Dict.{HashMap}
use ios_webkit_debug_proxy_r.Base.Dict
use ios_webkit_debug_proxy_r.Base.Dict.Laws.{get-modify}
use ios_webkit_debug_proxy_r.HttpServer.{WsToWiMessage}
use ios_webkit_debug_proxy_r.Plist.{Plist}
use ios_webkit_debug_proxy_r.Rpc.{RpcSender}
use ios_webkit_debug_proxy_r.Proxy.State.{DeviceRuntime, World}
use ios_webkit_debug_proxy_r.Proxy.Invariant.Sockets.{send_rpc_effects}
use ios_webkit_debug_proxy_r.Proxy.Sockets.{
  find_page, detach, attach, update_page, send_rpc, stop_devtools, attach_client, current_client,
  send_forward_socket_setup, forward_data, remove_client, handle_ws_message,
}

module _ (p : Plist) where
  -- The messages of clients, each to its device, in this order.
  abbrev pub handle_all : List (String × WsToWiMessage) → World → World
  handle_all [] w = w
  handle_all ((at, msg) ∷ messages) w = handle_all messages (handle_ws_message p at msg w)

abbrev pub without_client : String → DeviceRuntime → DeviceRuntime
without_client ws_id r = record r {
  ws_clients = Dict.remove r.ws_clients ws_id;
  ws_client_txs = Dict.remove r.ws_client_txs ws_id;
}

-- Something that is read off a runtime, and that attaching and detaching leave as it is; `IsOther`
-- are the clients whose close leaves it so.
module _ {A : Type 0} (view : DeviceRuntime → Option A) (IsOther : String → Type 0)
    (detaches : (r : DeviceRuntime) (n : ℕ) → view (update_page n detach r) ≡ view r)
    (attaches : (r : DeviceRuntime) (n : ℕ) (ws_id : String)
      → view (update_page n (attach ws_id) r) ≡ view r)
    (leaves : (r : DeviceRuntime) (ws_id : String)
      → IsOther ws_id
      → view (without_client ws_id r) ≡ view r) where
  -- What is read of each device is the same.
  abbrev Stays : HashMap String DeviceRuntime → HashMap String DeviceRuntime → Type 0
  Stays devices devices' =
      (id : String)
      → Option.bind (Dict.get devices' id) view ≡ Option.bind (Dict.get devices id) view

  modify-Stays :
      (devices : HashMap String DeviceRuntime) (at : String) (r r' : DeviceRuntime)
      → Dict.get devices at ≡ some r
      → view r' ≡ view r
      → Stays devices (Dict.modify devices at (λ _. r'))
  unfolding Option.bind
  modify-Stays devices at r r' known same id = elim (Bool-cases (at == id)) [
    | inl here ↦
        let known' : Dict.get devices id ≡ some r =
          ap (Dict.get devices) (sym ((str_eq_iff at id).0 here)) ∙ known in
        let stored : Dict.get (Dict.modify devices at (λ _. r')) id ≡ some r' =
          get-modify devices at id (λ _. r') ∙ rw (here, known') refl in
        rw (stored, known') same
    | inr other ↦
        let unread : Dict.get (Dict.modify devices at (λ _. r')) id ≡ Dict.get devices id =
          get-modify devices at id (λ _. r') ∙ rw other refl in
        rw unread refl
  ]

  -- One of three worlds, by two tests.
  picked-Stays :
      (devices : HashMap String DeviceRuntime) (closing opening : Bool)
      (closed opened carried : World)
      → (closing ≡ true → Stays devices closed.devices)
      → Stays devices opened.devices
      → Stays devices carried.devices
      → Stays devices (if closing then closed else if opening then opened else carried).devices
  picked-Stays devices true opening closed opened carried a b c = a refl
  picked-Stays devices false true closed opened carried a b c = b
  picked-Stays devices false false closed opened carried a b c = c

  abbrev OthersClose : String × WsToWiMessage → Type 0
  OthersClose (at, msg) = msg.is_close ≡ true → IsOther msg.ws_id

  module _ (p : Plist) where
    send_rpc-Stays :
        (devices : HashMap String DeviceRuntime) (r : DeviceRuntime) (build : RpcSender → Bytes)
        (w : World)
        → Stays devices w.devices
        → Stays devices (send_rpc p r build w).devices
    send_rpc-Stays devices r build w h =
        subst (Stays devices) (sym (ap (λ (u : World). u.devices) (send_rpc_effects p r build w))) h

    stop_devtools-Stays :
        (at : String) (n : ℕ) (w : World) → Stays w.devices (stop_devtools p at n w).devices
    unfolding stop_devtools
    stop_devtools-Stays at n w = elim (Option-cases (Dict.get w.devices at)) [
      | inl away ↦ rw (away, stop_devtools) (λ id. refl)
      | inr (r, known) ↦ elim (Option-cases (find_page n r.pages)) [
        | inl lost ↦ rw (known, lost, stop_devtools) (λ id. refl)
        | inr (q, found) ↦ elim (Option-cases q.sender_id) [
          | inl free ↦ rw (known, found, free, stop_devtools) (λ id. refl)
          | inr (holder, held) ↦
              rw (known, found, held, stop_devtools)
                (subst (λ d. Stays w.devices (Dict.modify d at (λ _. update_page n detach r)))
                  (sym (ap (λ (u : World). u.devices) (send_rpc_effects p r _ w)))
                  (modify-Stays w.devices at r (update_page n detach r) known (detaches r n)))
        ]
      ]
    ]

    attach_client-Stays :
        (at new_id : String) (n : ℕ) (w : World)
        → Stays w.devices (attach_client p at new_id n w).devices
    unfolding attach_client
    attach_client-Stays at new_id n w = elim (Option-cases (Dict.get w.devices at)) [
      | inl away ↦ rw (away, attach_client) (λ id. refl)
      | inr (r, known) ↦ elim (Option-cases (find_page n r.pages)) [
        | inl lost ↦ rw (known, lost, attach_client) (λ id. refl)
        | inr (q, found) ↦
            rw (known, found, attach_client)
              (send_rpc-Stays w.devices r _ _
                (modify-Stays w.devices at r _ known (attaches r n new_id)))
      ]
    ]

    setup-Stays :
        (at new_id : String) (n : ℕ) (w : World)
        → Stays w.devices (send_forward_socket_setup p at new_id n w).devices
    unfolding send_forward_socket_setup
    setup-Stays at new_id n w = elim (Option-cases (current_client p at n w)) [
      | inl free ↦ rw (free, send_forward_socket_setup) (attach_client-Stays at new_id n w)
      | inr (old_id, held) ↦ elim (Bool-cases (old_id == new_id)) [
        | inl same ↦ rw (held, same, send_forward_socket_setup) (attach_client-Stays at new_id n w)
        | inr other ↦
            rw (held, other, send_forward_socket_setup)
              (λ id.
                attach_client-Stays at new_id n (stop_devtools p at n w) id
                ∙ stop_devtools-Stays at n w id)
      ]
    ]

    remove_client-Stays :
        (at gone_id : String) (w : World)
        → IsOther gone_id
        → Stays w.devices (remove_client p at gone_id w).devices
    unfolding remove_client
    remove_client-Stays at gone_id w other = elim (Option-cases (Dict.get w.devices at)) [
      | inl away ↦ rw (away, remove_client) (λ id. refl)
      | inr (r, known) ↦
          rw (known, remove_client) (modify-Stays w.devices at r _ known (leaves r gone_id other))
    ]

    forward_data-Stays :
        (at : String) (msg : WsToWiMessage) (w : World)
        → Stays w.devices (forward_data p at msg w).devices
    unfolding forward_data
    forward_data-Stays at msg w = elim (Option-cases (Dict.get w.devices at)) [
      | inl away ↦ rw (away, forward_data) (λ id. refl)
      | inr (r, known) ↦ elim (Option-cases (find_page msg.page_num r.pages)) [
        | inl lost ↦ rw (known, lost, forward_data) (λ id. refl)
        | inr (q, found) ↦
            rw (known, found, forward_data) (send_rpc-Stays w.devices r _ w (λ id. refl))
      ]
    ]

    handle_ws_message-Stays :
        (at : String) (msg : WsToWiMessage) (w : World)
        → (msg.is_close ≡ true → IsOther msg.ws_id)
        → Stays w.devices (handle_ws_message p at msg w).devices
    unfolding handle_ws_message
    handle_ws_message-Stays at msg w spares =
        picked-Stays w.devices msg.is_close (is_empty msg.payload) _ _ _
          (λ closing id.
            remove_client-Stays at msg.ws_id (stop_devtools p at msg.page_num w) (spares closing) id
            ∙ stop_devtools-Stays at msg.page_num w id)
          (setup-Stays at msg.ws_id msg.page_num w) (forward_data-Stays at msg w)

    pub handle_all-Stays :
        (messages : List (String × WsToWiMessage)) (w : World)
        → All OthersClose messages
        → Stays w.devices (handle_all p messages w).devices
    handle_all-Stays [] w spares id = refl
    handle_all-Stays ((at, msg) ∷ messages) w spares id =
        handle_all-Stays messages (handle_ws_message p at msg w) spares.1 id
        ∙ handle_ws_message-Stays at msg w spares.0 id
