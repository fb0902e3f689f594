-- ===== src/Proxy/Sockets/Sessions.antt =====
-- Who debugs a page: the steps that attach a client to a page and detach it. Opening and Closing
-- have the messages of the clients.
pub mod Opening
pub mod Closing
pub mod Abstract
pub mod Refines
pub mod Target
pub mod Carried
use mathlib.Core.Option
use mathlib.Core.Option.{some-injective}
use ios_webkit_debug_proxy_r.Base.{
  ℕ, String, ◌≡◌, refl, sym, ap, subst, ◌∙◌, true, false, not, none, some, List, [], ◌∷◌, ◌++◌,
  append_assoc, arith, ◌==◌, nat_eq, string_eq, str_eq_iff, str_eq_refl, find, is_empty, Bytes,
  if◌then◌else◌, Option-cases, Bool-cases, inl, inr,
}
use ios_webkit_debug_proxy_r.Base.Dict.{HashMap, values}
use ios_webkit_debug_proxy_r.Base.Dict
use ios_webkit_debug_proxy_r.Base.Dict.Laws.{get-modify, get-remove}
use ios_webkit_debug_proxy_r.HttpServer.{WsToWiMessage}
use ios_webkit_debug_proxy_r.Plist.{Plist}
use ios_webkit_debug_proxy_r.Rpc.{
  RpcSender, build_forward_socket_setup, build_forward_socket_data, build_forward_did_close,
}
use ios_webkit_debug_proxy_r.WebInspector.{WebInspectorCodec, encode_plist}
use ios_webkit_debug_proxy_r.Proxy.State.{
  PageInfo, WebInspectorHandle, DeviceRuntime, World, Effect, sends, emit,
}
use ios_webkit_debug_proxy_r.Proxy.Devices.{unwrap_or}
use ios_webkit_debug_proxy_r.Proxy.Sockets.{
  set_runtime, has_number, find_page, detach, attach, update_page, send_with, send_rpc,
  stop_devtools, attach_client, current_client, send_forward_socket_setup, forward_data,
  remove_client, handle_ws_message,
}

-- The device is known and has a page of this number.
pub record HasPage (w : World) (id : String) (r : DeviceRuntime) (n : ℕ) (q : PageInfo)
    : Type 0 where
  pub device : Dict.get w.devices id ≡ some r
  pub page : find_page n r.pages ≡ some q

-- What the messages to a device are built and sent with.
pub record Link : Type 0 where
  pub sender : RpcSender
  pub handle : WebInspectorHandle
  pub codec : WebInspectorCodec

-- The device has a WebInspector connection.
pub record IsLinked (r : DeviceRuntime) (l : Link) : Type 0 where
  pub sender : r.rpc_sender ≡ some l.sender
  pub handle : r.wi_handle ≡ some l.handle
  pub codec : r.wi_codec ≡ some l.codec

find-modify_first :
    (n : ℕ) (f : PageInfo → PageInfo) (m : HashMap ℕ PageInfo) (q : PageInfo)
    → ((p : PageInfo) → (f p).page_num ≡ p.page_num)
    → find_page n m ≡ some q
    → find_page n (Dict.modify_first m (has_number n) f) ≡ some (f q)
unfolding Dict.modify_first
find-modify_first n f [] q same h = absurd (cc)
find-modify_first n f ((k, p) ∷ m) q same h = ground (arith, same p, find-modify_first n f m q same)

-- A write to the page leaves it in place.
pub update_page-HasPage :
    (w w' : World) (id : String) (r : DeviceRuntime) (n : ℕ) (q : PageInfo)
    (f : PageInfo → PageInfo)
    → HasPage w id r n q
    → ((p : PageInfo) → (f p).page_num ≡ p.page_num)
    → w'.devices ≡ Dict.modify w.devices id (λ _. update_page n f r)
    → HasPage w' id (update_page n f r) n (f q)
update_page-HasPage w w' id r n q f has same written = record {
  device =
      ap (λ m. Dict.get m id) written
      ∙ (get-modify w.devices id id (λ _. update_page n f r) ∙ rw (str_eq_refl id, has.device));
  page = find-modify_first n f r.pages q same has.page;
}

module _ (p : Plist) where
  -- The client of the page is read off it.
  pub current_client-HasPage :
      (w : World) (id : String) (r : DeviceRuntime) (n : ℕ) (q : PageInfo)
      → HasPage w id r n q
      → current_client p id n w ≡ q.ws_client_id
  unfolding current_client Option.bind
  current_client-HasPage w id r n q has = rw (has.device, has.page)

  abbrev told : Link → (RpcSender → Bytes) → Effect
  told l build = sends l.handle.write_tx (encode_plist p l.codec (build l.sender))

  -- The messages that end a client's session on a page, start one, and carry its data.
  abbrev pub closes : Link → PageInfo → String → Effect
  closes l q ws_id = told l (λ s. build_forward_did_close p s q.app_id q.page_id ws_id)

  abbrev pub opens : Link → PageInfo → String → Effect
  opens l q ws_id = told l (λ s. build_forward_socket_setup p s q.app_id q.page_id ws_id)

  abbrev pub carries : Link → PageInfo → String → Bytes → Effect
  carries l q ws_id payload =
      told l (λ s. build_forward_socket_data p s q.app_id q.page_id ws_id payload)

  pub send_rpc-linked :
      (l : Link) (r : DeviceRuntime) (build : RpcSender → Bytes) (w : World)
      → IsLinked r l
      → send_rpc p r build w ≡ emit w (told l build)
  unfolding send_rpc send_with
  send_rpc-linked l r build w linked = rw (linked.sender, linked.handle, linked.codec)

  module _ (l : Link) (id : String) (r : DeviceRuntime) (n : ℕ) (linked : IsLinked r l) where
    stop_devtools-some :
        (w : World) (q : PageInfo) (ws_id : String)
        → HasPage w id r n q
        → q.sender_id ≡ some ws_id
        → stop_devtools p id n w
          ≡ set_runtime (emit w (closes l q ws_id)) id (update_page n detach r)
    unfolding stop_devtools
    stop_devtools-some w q ws_id has held =
        rw (has.device, has.page, held, stop_devtools)
          (ap (λ u. set_runtime u id (update_page n detach r)) (send_rpc-linked l r _ w linked))

    pub attach_client-eq :
        (w : World) (q : PageInfo) (ws_id : String)
        → HasPage w id r n q
        → attach_client p id ws_id n w
          ≡ emit (set_runtime w id (update_page n (attach ws_id) r)) (opens l q ws_id)
    unfolding attach_client
    attach_client-eq w q ws_id has =
        rw (has.device, has.page, attach_client) (send_rpc-linked l r _ _ linked)

  module _ (l : Link) (id : String) (n : ℕ) where
    pub stop_devtools-HasPage :
        (r : DeviceRuntime) (q : PageInfo) (w : World) (old_id : String)
        → IsLinked r l
        → HasPage w id r n q
        → q.sender_id ≡ some old_id
        → ((stop_devtools p id n w).effects ≡ w.effects ++ closes l q old_id ∷ [])
          × HasPage (stop_devtools p id n w) id (update_page n detach r) n (detach q)
    stop_devtools-HasPage r q w old_id linked has held =
        let stopped = stop_devtools-some l id r n linked w q old_id has held in
        (
          ap (λ (u : World). u.effects) stopped,
          update_page-HasPage w _ id r n q detach has (λ _. refl)
              (ap (λ (u : World). u.devices) stopped),
        )
