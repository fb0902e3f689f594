-- ===== src/Proxy/Sockets/Sessions/Refines.antt =====
-- The WebSocket side does to the sessions what a client's message does in the abstract.
use mathlib.Core.Option
use ios_webkit_debug_proxy_r.Base.{
  ℕ, String, ◌≡◌, refl, sym, ap, subst, ◌∙◌, Bool, true, false, none, some, ◌==◌, nat_eq, string_eq,
  is_empty, if◌then◌else◌, Option-cases, Bool-cases, inl, inr, Bytes,
}
use ios_webkit_debug_proxy_r.Base.Dict.{HashMap, values}
use ios_webkit_debug_proxy_r.Base.Dict
use ios_webkit_debug_proxy_r.Base.Dict.Laws.{find-values}
use ios_webkit_debug_proxy_r.HttpServer.{WsToWiMessage}
use ios_webkit_debug_proxy_r.Plist.{Plist}
use ios_webkit_debug_proxy_r.Rpc.{RpcSender}
use ios_webkit_debug_proxy_r.Proxy.State.{PageInfo, DeviceRuntime, World}
use ios_webkit_debug_proxy_r.Proxy.Invariant.{IsWorld}
use ios_webkit_debug_proxy_r.Proxy.Invariant.Sockets.{send_rpc_effects}
use ios_webkit_debug_proxy_r.Proxy.Sockets.{
  has_number, find_page, detach, attach, update_page, send_rpc, stop_devtools, attach_client,
  current_client, send_forward_socket_setup, forward_data, remove_client, handle_ws_message,
}
use ios_webkit_debug_proxy_r.Proxy.Sockets.Sessions.Abstract.{
  sessions, after, change, Acts, Acts-id, Acts-trans, Acts-update, Acts-same, Acts-fixed,
}

-- The two client fields of the device's page agree.
abbrev pub Agrees : World → String → ℕ → Type 0
Agrees w id n =
    (r : DeviceRuntime) (q : PageInfo)
    → Dict.get w.devices id ≡ some r
    → find_page n r.pages ≡ some q
    → q.sender_id ≡ q.ws_client_id

-- One of three worlds, by two tests.
picked-Acts :
    (devices : HashMap String DeviceRuntime) (id : String) (n : ℕ) (ws_id : String)
    (closing opening : Bool) (closed opened carried : World)
    → Acts devices closed.devices id n (λ _. none)
    → Acts devices opened.devices id n (λ _. some ws_id)
    → Acts devices carried.devices id n (λ c. c)
    → Acts devices
        (if closing then closed else if opening then opened else carried).devices
        id
        n
        (λ holder. if closing then none else if opening then some ws_id else holder)
picked-Acts devices id n ws_id true opening closed opened carried a b c = a
picked-Acts devices id n ws_id false true closed opened carried a b c = b
picked-Acts devices id n ws_id false false closed opened carried a b c = c

module _ (p : Plist) where
  send_rpc-devices :
      (r : DeviceRuntime) (build : RpcSender → Bytes) (w : World)
      → (send_rpc p r build w).devices ≡ w.devices
  send_rpc-devices r build w = ap (λ (u : World). u.devices) (send_rpc_effects p r build w)

  stop_devtools-Acts :
      (id : String) (n : ℕ) (w : World)
      → Agrees w id n
      → Acts w.devices (stop_devtools p id n w).devices id n (λ _. none)
  unfolding stop_devtools Option.bind
  stop_devtools-Acts id n w agrees = elim (Option-cases (Dict.get w.devices id)) [
    | inl away ↦ rw (away, stop_devtools) (Acts-fixed w.devices id n _ (rw away refl))
    | inr (r, known) ↦ elim (Option-cases (find_page n r.pages)) [
      | inl lost ↦
          rw (known, lost, stop_devtools) (Acts-fixed w.devices id n _ (rw (known, lost) refl))
      | inr (q, found) ↦ elim (Option-cases q.sender_id) [
        | inl free ↦
            rw (known, found, free, stop_devtools)
              (Acts-fixed w.devices id n _
                (rw (known, found, sym (agrees r q known found) ∙ free) refl))
        | inr (holder, held) ↦
            rw (known, found, held, stop_devtools)
              (subst
                (λ d.
                  Acts w.devices (Dict.modify d id (λ _. update_page n detach r)) id n (λ _. none))
                (sym (send_rpc-devices r _ w))
                (Acts-update w.devices id n r (update_page n detach r) detach (λ _. none) known
                  (λ _. refl) (λ _. refl) refl))
      ]
    ]
  ]

  attach_client-Acts :
      (id ws_id : String) (n : ℕ) (w : World)
      → Acts w.devices (attach_client p id ws_id n w).devices id n (λ _. some ws_id)
  unfolding attach_client Option.bind
  attach_client-Acts id ws_id n w = elim (Option-cases (Dict.get w.devices id)) [
    | inl away ↦ rw (away, attach_client) (Acts-fixed w.devices id n _ (rw away refl))
    | inr (r, known) ↦ elim (Option-cases (find_page n r.pages)) [
      | inl lost ↦
          rw (known, lost, attach_client) (Acts-fixed w.devices id n _ (rw (known, lost) refl))
      | inr (q, found) ↦
          rw (known, found, attach_client)
            (subst (λ d. Acts w.devices d id n (λ _. some ws_id)) (sym (send_rpc-devices r _ _))
              (Acts-update w.devices id n r (update_page n (attach ws_id) r) (attach ws_id)
                (λ _. some ws_id) known (λ _. refl) (λ _. refl) refl))
    ]
  ]

  setup-Acts :
      (id ws_id : String) (n : ℕ) (w : World)
      → Agrees w id n
      → Acts w.devices (send_forward_socket_setup p id ws_id n w).devices id n (λ _. some ws_id)
  unfolding send_forward_socket_setup
  setup-Acts id ws_id n w agrees = elim (Option-cases (current_client p id n w)) [
    | inl free ↦ rw (free, send_forward_socket_setup) (attach_client-Acts id ws_id n w)
    | inr (old_id, held) ↦ elim (Bool-cases (old_id == ws_id)) [
      | inl same ↦ rw (held, same, send_forward_socket_setup) (attach_client-Acts id ws_id n w)
      | inr other ↦
          rw (held, other, send_forward_socket_setup)
            (Acts-trans _ _ _ id n _ _ (stop_devtools-Acts id n w agrees)
              (attach_client-Acts id ws_id n (stop_devtools p id n w)))
    ]
  ]

  remove_client-Acts :
      (id ws_id : String) (n : ℕ) (w : World)
      → Acts w.devices (remove_client p id ws_id w).devices id n (λ c. c)
  unfolding remove_client
  remove_client-Acts id ws_id n w = elim (Option-cases (Dict.get w.devices id)) [
    | inl away ↦ rw (away, remove_client) (Acts-id w.devices id n)
    | inr (r, known) ↦ rw (known, remove_client) (Acts-same w.devices id n r _ known refl)
  ]

  forward_data-Acts :
      (id : String) (msg : WsToWiMessage) (w : World)
      → Acts w.devices (forward_data p id msg w).devices id msg.page_num (λ c. c)
  unfolding forward_data
  forward_data-Acts id msg w = elim (Option-cases (Dict.get w.devices id)) [
    | inl away ↦ rw (away, forward_data) (Acts-id w.devices id msg.page_num)
    | inr (r, known) ↦ elim (Option-cases (find_page msg.page_num r.pages)) [
      | inl lost ↦ rw (known, lost, forward_data) (Acts-id w.devices id msg.page_num)
      | inr (q, found) ↦
          rw (known, found, forward_data)
            (subst (λ d. Acts w.devices d id msg.page_num (λ c. c)) (sym (send_rpc-devices r _ w))
              (Acts-id w.devices id msg.page_num))
    ]
  ]

  -- Seen as a table of which client debugs which page of which device, handle_ws_message does what
  -- the message says and nothing else: a close frees the page that it names, an opening gives it
  -- to the client that sends it, data leave it, and every other page of every device keeps its
  -- client; a page that does not exist stays so. It holds where the two client fields of the page
  -- named agree.
  pub handle_ws_message-refines :
      (id : String) (msg : WsToWiMessage) (w : World) (id' : String) (m : ℕ)
      → Agrees w id msg.page_num
      → sessions (handle_ws_message p id msg w) id' m
        ≡ change id msg.page_num (after msg) (sessions w) id' m
  unfolding handle_ws_message
  handle_ws_message-refines id msg w id' m agrees =
      picked-Acts w.devices id msg.page_num msg.ws_id msg.is_close (is_empty msg.payload) _ _ _
        (Acts-trans _ _ _ id msg.page_num _ _ (stop_devtools-Acts id msg.page_num w agrees)
          (remove_client-Acts id msg.ws_id msg.page_num (stop_devtools p id msg.page_num w)))
        (setup-Acts id msg.ws_id msg.page_num w agrees) (forward_data-Acts id msg w) id' m

-- In a consistent world they agree for every page.
pub IsWorld-Agrees : (n k : ℕ) (w : World) (id : String) → IsWorld n w → Agrees w id k
IsWorld-Agrees n k w id v r q known found =
    let runtime = v.runtime id r known in
    let (key, got, passes) = find-values (has_number k) r.pages q runtime.is_table.uniq found in
    runtime.attached key q got
