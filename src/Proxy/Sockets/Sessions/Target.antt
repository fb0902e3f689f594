-- ===== src/Proxy/Sockets/Sessions/Target.antt =====
-- What the messages about a page are made with, which no client's message changes.
use mathlib.Core.Option
use mathlib.Core.Option.{some-injective, none-ne-some}
use ios_webkit_debug_proxy_r.Base.{
  ℕ, String, ◌≡◌, refl, sym, ap, ◌∙◌, Bool, true, false, Option, none, some, List, [], ◌∷◌, ◌==◌,
  nat_eq, string_eq, if◌then◌else◌, Option-cases, inl, inr, All,
}
use ios_webkit_debug_proxy_r.Base.Dict
use ios_webkit_debug_proxy_r.HttpServer.{WsToWiMessage}
use ios_webkit_debug_proxy_r.Plist.{Plist}
use ios_webkit_debug_proxy_r.Rpc.{RpcSender}
use ios_webkit_debug_proxy_r.WebInspector.{WebInspectorCodec}
use ios_webkit_debug_proxy_r.Proxy.State.{PageInfo, WebInspectorHandle, DeviceRuntime, World}
use ios_webkit_debug_proxy_r.Proxy.Sockets.{find_page, detach, attach, update_page}
use ios_webkit_debug_proxy_r.Proxy.Sockets.Frames.{handle_all, handle_all-Stays}
use ios_webkit_debug_proxy_r.Proxy.Sockets.Sessions.{HasPage, Link, IsLinked}
use ios_webkit_debug_proxy_r.Proxy.Sockets.Sessions.Abstract.{find_page-modify_first}

-- What a message to the device about a page is made with.
pub record Target : Type 0 where
  pub app_id : String
  pub page_id : ℕ
  pub sender : Option RpcSender
  pub handle : Option WebInspectorHandle
  pub codec : Option WebInspectorCodec

abbrev pub target_of : DeviceRuntime → PageInfo → Target
target_of r q = record {
  app_id = q.app_id;
  page_id = q.page_id;
  sender = r.rpc_sender;
  handle = r.wi_handle;
  codec = r.wi_codec;
}

abbrev pub target : ℕ → DeviceRuntime → Option Target
target n r = Option.map (target_of r) (find_page n r.pages)

update_page-target :
    (n m : ℕ) (f : PageInfo → PageInfo) (r : DeviceRuntime)
    → ((q : PageInfo) → (f q).page_num ≡ q.page_num)
    → ((q : PageInfo) → target_of r (f q) ≡ target_of r q)
    → target n (update_page m f r) ≡ target n r
update_page-target n m f r same keeps =
    ap (Option.map (target_of r)) (find_page-modify_first m n f r.pages same)
    ∙ chosen (n == m) (find_page n r.pages)
  where
    chosen :
        (t : Bool) (o : Option PageInfo)
        → Option.map (target_of r) (if t then Option.map f o else o) ≡ Option.map (target_of r) o
    chosen true none = refl
    chosen true (some q) = ap some (keeps q)
    chosen false o = refl

abbrev Anyone : String → Type 0
Anyone ws_id = Unit

module _ (p : Plist) (id : String) (n : ℕ) where
  pub handle_all-target :
      (messages : List (String × WsToWiMessage)) (w : World)
      → Option.bind (Dict.get (handle_all p messages w).devices id) (target n)
        ≡ Option.bind (Dict.get w.devices id) (target n)
  handle_all-target messages w =
      handle_all-Stays (target n) Anyone
        (λ r m. update_page-target n m detach r (λ q. refl) (λ q. refl))
        (λ r m new_id. update_page-target n m (attach new_id) r (λ q. refl) (λ q. refl))
        (λ r gone_id other. refl) p messages w (free messages) id
    where
      free :
          (messages : List (String × WsToWiMessage))
          → All (λ (m : String × WsToWiMessage). m.1.is_close ≡ true → Anyone m.1.ws_id) messages
      free [] = tt
      free (m ∷ messages) = (λ closing. tt, free messages)

-- The page that is the target.
pub target-HasPage :
    (w : World) (id : String) (n : ℕ) (t : Target)
    → Option.bind (Dict.get w.devices id) (target n) ≡ some t
    → (r : DeviceRuntime) × (q : PageInfo) × HasPage w id r n q × (target_of r q ≡ t)
unfolding Option.bind
target-HasPage w id n t at = elim (Option-cases (Dict.get w.devices id)) [
  | inl away ↦
      let gone : Option.bind (Dict.get w.devices id) (target n) ≡ none = rw away refl in
      absurd (none-ne-some t (sym gone ∙ at))
  | inr (r, known) ↦
      let here : Option.bind (Dict.get w.devices id) (target n) ≡ target n r = rw known refl in
      elim (Option-cases (find_page n r.pages)) [
        | inl lost ↦
            absurd (none-ne-some t (ap (Option.map (target_of r)) (sym lost) ∙ sym here ∙ at))
        | inr (q, found) ↦ (
          r,
          q,
          record { device = known; page = found },
          some-injective _ _ (ap (Option.map (target_of r)) (sym found) ∙ sym here ∙ at),
        )
      ]
]

pub target_of-IsLinked :
    (r r' : DeviceRuntime) (q q' : PageInfo) (l : Link)
    → IsLinked r l
    → target_of r' q' ≡ target_of r q
    → IsLinked r' l
target_of-IsLinked r r' q q' l linked same = record {
  sender = ap (λ (t : Target). t.sender) same ∙ linked.sender;
  handle = ap (λ (t : Target). t.handle) same ∙ linked.handle;
  codec = ap (λ (t : Target). t.codec) same ∙ linked.codec;
}
