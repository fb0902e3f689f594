-- ===== src/Proxy/Sockets/Sessions/Opening.antt =====
-- A client that opens a page takes it over.
use ios_webkit_debug_proxy_r.Base.{
  ℕ, String, ◌≡◌, refl, sym, ap, subst, ◌∙◌, true, false, not, none, some, List, [], ◌∷◌, ◌++◌,
  append_assoc, arith, ◌==◌, nat_eq, string_eq, str_eq_iff, if◌then◌else◌, Option-cases, Bool-cases,
  inl, inr,
}
use ios_webkit_debug_proxy_r.HttpServer.{WsToWiMessage}
use ios_webkit_debug_proxy_r.Plist.{Plist}
use ios_webkit_debug_proxy_r.Proxy.State.{PageInfo, DeviceRuntime, World, Effect}
use ios_webkit_debug_proxy_r.Proxy.Sockets.{
  detach, attach, update_page, stop_devtools, attach_client, current_client,
  send_forward_socket_setup, handle_ws_message,
}
use ios_webkit_debug_proxy_r.Proxy.Sockets.Sessions.{
  HasPage, Link, IsLinked, update_page-HasPage, current_client-HasPage, closes, opens,
  attach_client-eq, stop_devtools-HasPage,
}

module _ (p : Plist) where
  module _ (l : Link) (id : String) (n : ℕ) (ws_id : String) where
    attach_client-opens :
        (r : DeviceRuntime) (q : PageInfo) (w : World)
        → IsLinked r l
        → HasPage w id r n q
        → ((attach_client p id ws_id n w).effects ≡ w.effects ++ opens p l q ws_id ∷ [])
          × (current_client p id n (attach_client p id ws_id n w) ≡ some ws_id)
    attach_client-opens r q w linked has =
        let taken = attach_client-eq p l id r n linked w q ws_id has in
        (
          ap (λ (u : World). u.effects) taken,
          ap (current_client p id n) taken
              ∙ current_client-HasPage p _ id (update_page n (attach ws_id) r) n (attach ws_id q)
                  (update_page-HasPage w _ id r n q (attach ws_id) has (λ _. refl) refl),
        )

    -- What an opening ends: the session of another client.
    abbrev pub ended : PageInfo → List Effect
    ended q = elim q.ws_client_id [
      | none ↦ []
      | some old_id ↦ if not (old_id == ws_id) then closes p l q old_id ∷ [] else []
    ]

    -- The page is free, or the client has it already.
    send_forward_socket_setup-free :
        (w : World)
        → ((old_id : String) → current_client p id n w ≡ some old_id → (old_id == ws_id) ≡ true)
        → send_forward_socket_setup p id ws_id n w ≡ attach_client p id ws_id n w
    unfolding send_forward_socket_setup
    send_forward_socket_setup-free w mine = elim (Option-cases (current_client p id n w)) [
      | inl free ↦ rw (free, send_forward_socket_setup)
      | inr (old_id, held) ↦ rw (held, mine old_id held, send_forward_socket_setup)
    ]

    send_forward_socket_setup-held :
        (w : World) (old_id : String)
        → current_client p id n w ≡ some old_id
        → (old_id == ws_id) ≡ false
        → send_forward_socket_setup p id ws_id n w
          ≡ attach_client p id ws_id n (stop_devtools p id n w)
    unfolding send_forward_socket_setup
    send_forward_socket_setup-held w old_id held other = rw (held, other, send_forward_socket_setup)

    -- The page of the world is the client's, and these messages were sent since.
    abbrev pub Opened : World → World → List Effect → PageInfo → Type 0
    Opened w w' sent q =
        (w'.effects ≡ w.effects ++ (sent ++ opens p l q ws_id ∷ []))
        × (current_client p id n w' ≡ some ws_id)

    module _ (r : DeviceRuntime) (q : PageInfo) (w : World) (linked : IsLinked r l)
        (has : HasPage w id r n q) (agree : q.sender_id ≡ q.ws_client_id) where
      opens-free :
          ((old_id : String) → q.ws_client_id ≡ some old_id → (old_id == ws_id) ≡ true)
          → Opened w (send_forward_socket_setup p id ws_id n w) [] q
      opens-free mine =
          subst (λ u. Opened w u [] q)
            (sym (
              send_forward_socket_setup-free w
                λ old_id held. mine old_id (sym (current_client-HasPage p w id r n q has) ∙ held)))
            (attach_client-opens r q w linked has)

      opens-held :
          (old_id : String)
          → q.ws_client_id ≡ some old_id
          → (old_id == ws_id) ≡ false
          → Opened w (send_forward_socket_setup p id ws_id n w) (closes p l q old_id ∷ []) q
      opens-held old_id held other =
          let (closed, has') =
            stop_devtools-HasPage p l id n r q w old_id linked has (agree ∙ held) in
          let linked' : IsLinked (update_page n detach r) l = record {
            sender = linked.sender;
            handle = linked.handle;
            codec = linked.codec;
          } in
          let (opened, current) =
            attach_client-opens (update_page n detach r) (detach q) (stop_devtools p id n w) linked'
              has' in
          subst (λ u. Opened w u (closes p l q old_id ∷ []) q)
            (sym (
              send_forward_socket_setup-held w old_id
                (current_client-HasPage p w id r n q has ∙ held) other))
            (
              opened
                  ∙ (ap (λ es. es ++ opens p l q ws_id ∷ []) closed
                      ∙ append_assoc w.effects (closes p l q old_id ∷ []) (opens p l q ws_id ∷ [])),
              current,
            )

      send_forward_socket_setup-opens :
          Opened w (send_forward_socket_setup p id ws_id n w) (ended q) q
      send_forward_socket_setup-opens = elim (Option-cases q.ws_client_id) [
        | inl free ↦ rw free (opens-free λ old_id held. absurd (cc))
        | inr (old_id, held) ↦ elim (Bool-cases (old_id == ws_id)) [
          | inl mine ↦
              rw (held, mine)
                (opens-free
                  λ id' held'. ground (arith, str_eq_iff id' ws_id, str_eq_iff old_id ws_id))
          | inr other ↦ rw (held, other) (opens-held old_id held other)
        ]
      ]

      -- A client that opens a page which the device has becomes its client: the session of another
      -- client is ended first, then the client's own is set up, and nothing else is sent. It holds
      -- where the device has a connection and the page's two client fields agree.
      pub handle_ws_message-opens :
          (msg : WsToWiMessage)
          → msg.is_close ≡ false
          → msg.payload ≡ []
          → msg.page_num ≡ n
          → msg.ws_id ≡ ws_id
          → Opened w (handle_ws_message p id msg w) (ended q) q
      unfolding handle_ws_message
      handle_ws_message-opens msg going empty num client =
          rw (going, empty, num, client, handle_ws_message) send_forward_socket_setup-opens
