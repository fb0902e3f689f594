-- ===== src/Proxy/Sockets/Sessions/Carried.antt =====
-- Once a client has opened a page, what it sends reaches the device, until the page is closed or
-- another client opens it.
use mathlib.Core.Option
use mathlib.Core.Option.{some-injective, none-ne-some}
use ios_webkit_debug_proxy_r.Base.{
  ℕ, String, ◌≡◌, refl, sym, ap, ◌∙◌, false, not, ◌&&◌, ◌||◌, Option, some, List, [], ◌∷◌, ◌==◌,
  nat_eq, string_eq, str_eq_iff, str_eq_refl, is_empty, if◌then◌else◌, Bytes, All, arith,
}
use ios_webkit_debug_proxy_r.Base.Dict
use ios_webkit_debug_proxy_r.HttpServer.{WsToWiMessage}
use ios_webkit_debug_proxy_r.HttpServer.Connection.{opening, data_message}
use ios_webkit_debug_proxy_r.Plist.{Plist}
use ios_webkit_debug_proxy_r.Proxy.State.{PageInfo, DeviceRuntime, World, emit}
use ios_webkit_debug_proxy_r.Proxy.Invariant.{IsWorld}
use ios_webkit_debug_proxy_r.Proxy.Invariant.Sockets.{handle_ws_message-IsWorld}
use ios_webkit_debug_proxy_r.Proxy.Devices.{unwrap_or}
use ios_webkit_debug_proxy_r.Proxy.Sockets.{handle_ws_message}
use ios_webkit_debug_proxy_r.Proxy.Sockets.Frames.{handle_all}
use ios_webkit_debug_proxy_r.Proxy.Sockets.Sessions.{HasPage, Link, IsLinked, carries}
use ios_webkit_debug_proxy_r.Proxy.Sockets.Sessions.Abstract.{sessions, after, change}
use ios_webkit_debug_proxy_r.Proxy.Sockets.Sessions.Refines.{
  handle_ws_message-refines, IsWorld-Agrees,
}
use ios_webkit_debug_proxy_r.Proxy.Sockets.Sessions.Target.{
  Target, target_of, target, handle_all-target, target-HasPage, target_of-IsLinked,
}
use ios_webkit_debug_proxy_r.Proxy.Sockets.Sessions.Closing.{handle_ws_message-carries}

-- A client's message to a device neither closes the page n of the device id nor opens it for
-- another client than ws_id.
abbrev pub Leaves : String → ℕ → String → String × WsToWiMessage → Type 0
Leaves id n ws_id (at, msg) =
    (at == id
      && msg.page_num == n
      && (msg.is_close || is_empty msg.payload && not (msg.ws_id == ws_id)))
    ≡ false

-- A page that a message leaves to its client stays with it.
change-Leaves :
    (id : String) (n : ℕ) (ws_id at : String) (msg : WsToWiMessage) (w : World)
    → Leaves id n ws_id (at, msg)
    → sessions w id n ≡ some (some ws_id)
    → change at msg.page_num (after msg) (sessions w) id n ≡ some (some ws_id)
change-Leaves id n ws_id at msg w leaves held =
    ground (arith, leaves, held, str_eq_iff at id, str_eq_iff msg.ws_id ws_id)

module _ (p : Plist) (id : String) (n : ℕ) (ws_id : String) where
  -- Messages that leave the page to its client.
  handle_all-holds :
      {bound : ℕ} (messages : List (String × WsToWiMessage)) (w : World)
      → IsWorld bound w
      → All (Leaves id n ws_id) messages
      → sessions w id n ≡ some (some ws_id)
      → IsWorld bound (handle_all p messages w)
        × (sessions (handle_all p messages w) id n ≡ some (some ws_id))
  handle_all-holds [] w v leaves held = (v, held)
  handle_all-holds {bound} ((at, msg) ∷ messages) w v leaves held =
      handle_all-holds messages (handle_ws_message p at msg w)
        (handle_ws_message-IsWorld p at w v msg) leaves.1
        (handle_ws_message-refines p at msg w id n (IsWorld-Agrees bound msg.page_num w at v)
          ∙ change-Leaves id n ws_id at msg w leaves.0 held)

-- The client of a page that the device has is read off it.
sessions-HasPage :
    (w : World) (id : String) (r : DeviceRuntime) (n : ℕ) (q : PageInfo)
    → HasPage w id r n q
    → sessions w id n ≡ some q.ws_client_id
unfolding Option.bind
sessions-HasPage w id r n q has = rw (has.device, has.page) refl

module _ (p : Plist) (l : Link) (id : String) (n : ℕ) (r : DeviceRuntime) (q : PageInfo)
    (linked : IsLinked r l) where
  -- The page is the client's, and the target is the same.
  held-carries :
      (w : World) (ws_id : String) (bytes : Bytes) (bound : ℕ)
      → IsWorld bound w
      → sessions w id n ≡ some (some ws_id)
      → Option.bind (Dict.get w.devices id) (target n) ≡ some (target_of r q)
      → is_empty bytes ≡ false
      → handle_ws_message p id (data_message n ws_id bytes) w ≡ emit w (carries p l q ws_id bytes)
  held-carries w ws_id bytes bound v held at full =
      let (r', q', has, same) = target-HasPage w id n (target_of r q) at in
      let client : q'.ws_client_id ≡ some ws_id =
        some-injective _ _ (sym (sessions-HasPage w id r' n q' has) ∙ held) in
      let sender : q'.sender_id ≡ some ws_id =
        IsWorld-Agrees bound n w id v r' q' has.device has.page ∙ client in
      handle_ws_message-carries p l id n r' q' w (target_of-IsLinked r r' q q' l linked same) has
        (data_message n ws_id bytes) refl full refl
      ∙ ap (λ o. emit w (carries p l q' (unwrap_or o ws_id) bytes)) sender
      ∙ ap
          (λ (t : Target).
            emit w (carries p l (record q { app_id = t.app_id; page_id = t.page_id }) ws_id bytes))
          same

  -- Once a client has opened a page of a device with a connection, the data that it sends for the
  -- page go to the device, under its own identifier and with the page's app and identifier, and
  -- nothing else is done, after whatever messages of clients come in between, to this device and
  -- to others, as long as none closes the page or opens it for another client. It holds from each
  -- well formed world.
  pub handle_ws_message-reaches :
      (w : World) (bound : ℕ) (ws_id : String) (messages : List (String × WsToWiMessage))
      (bytes : Bytes)
      → IsWorld bound w
      → HasPage w id r n q
      → All (Leaves id n ws_id) messages
      → is_empty bytes ≡ false
      → handle_ws_message p id
          (data_message n ws_id bytes)
          (handle_all p ((id, opening n ws_id) ∷ messages) w)
        ≡ emit (handle_all p ((id, opening n ws_id) ∷ messages) w) (carries p l q ws_id bytes)
  unfolding Option.bind
  handle_ws_message-reaches w bound ws_id messages bytes v has leaves full =
      let opened : sessions (handle_ws_message p id (opening n ws_id) w) id n ≡ some (some ws_id) =
        handle_ws_message-refines p id (opening n ws_id) w id n (IsWorld-Agrees bound n w id v)
        ∙ opened_lem (sessions w id n) (sessions-HasPage w id r n q has) in
      let (v', held) =
        handle_all-holds p id n ws_id messages (handle_ws_message p id (opening n ws_id) w)
          (handle_ws_message-IsWorld p id w v (opening n ws_id)) leaves opened in
      held-carries _ ws_id bytes bound v' held
        (handle_all-target p id n ((id, opening n ws_id) ∷ messages) w
          ∙ rw (has.device, has.page) refl)
        full
    where
      opened_lem :
          (s : Option (Option String))
          → s ≡ some q.ws_client_id
          → (if id == id && n == n then Option.map (after (opening n ws_id)) s else s)
            ≡ some (some ws_id)
      opened_lem s known = rw known (ground (arith, str_eq_refl id))
