-- ===== src/Proxy/Tests/Sessions.antt =====
-- An opening moves a page from one client to the other.
use mathlib.Core.Option
use mathlib.Core.Option.{some-injective}
use ios_webkit_debug_proxy_r.Base.{
  ◌≡◌, refl, sym, ap, subst, ◌∙◌, some, nat_eq, string_eq, List, String, ◌∷◌, [],
}
use ios_webkit_debug_proxy_r.Base.Dict
use ios_webkit_debug_proxy_r.Plist.Sample.{sample}
use ios_webkit_debug_proxy_r.Proxy.State.{PageInfo, DeviceRuntime, emit, forwards}
use ios_webkit_debug_proxy_r.HttpServer.{WsToWiMessage}
use ios_webkit_debug_proxy_r.Proxy.Sockets.{
  find_page, handle_ws_message, handle_app_data, handle_ws_registration,
}
use ios_webkit_debug_proxy_r.Proxy.Sockets.Channels.{handle_app_data-reaches}
use ios_webkit_debug_proxy_r.Proxy.Sockets.Frames.{handle_all}
use ios_webkit_debug_proxy_r.Proxy.Sockets.Sessions.Abstract.{sessions, change, after}
use ios_webkit_debug_proxy_r.Proxy.Sockets.Sessions.Refines.{Agrees, handle_ws_message-refines}
use ios_webkit_debug_proxy_r.Proxy.Tests.Sockets.{
  held_page, runtime, world, world-HasPage, opening, closing, registration,
}

world-Agrees : Agrees world "phone-1" 1
world-Agrees r q known found =
    let same : runtime ≡ r = some-injective runtime r (sym world-HasPage.device ∙ known) in
    let page : held_page ≡ q =
      some-injective held_page q
        (sym world-HasPage.page ∙ (ap (λ (x : DeviceRuntime). find_page 1 x.pages) same ∙ found)) in
    subst (λ (x : PageInfo). x.sender_id ≡ x.ws_client_id) page refl

handle_ws_message-refines_example :
    sessions (handle_ws_message sample "phone-1" opening world) "phone-1" 1
    ≡ change "phone-1" 1 (after opening) (sessions world) "phone-1" 1
handle_ws_message-refines_example =
    handle_ws_message-refines sample "phone-1" opening world "phone-1" 1 world-Agrees

-- The page is W2's then.
moved : change "phone-1" 1 (after opening) (sessions world) "phone-1" 1 ≡ some (some "W2")
unfolding Dict.get Option.bind
moved = refl

-- W2 registers and opens the page; W0, which is gone, closes; then data come for W2.
abbrev messages : List (String × WsToWiMessage)
messages = ("phone-1", opening) ∷ (("phone-1", closing) ∷ [])

handle_app_data-reaches_example :
    handle_app_data "phone-1" "W2"
      (91 ∷ [])
      (handle_all sample messages (handle_ws_registration "phone-1" registration world))
    ≡ emit
        (handle_all sample messages (handle_ws_registration "phone-1" registration world))
        (forwards 31 (91 ∷ []))
handle_app_data-reaches_example =
    handle_app_data-reaches sample world "phone-1" runtime registration messages (91 ∷ [])
      world-HasPage.device (refl, (refl, tt))
