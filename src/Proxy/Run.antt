-- ===== src/Proxy/Run.antt =====
-- src/proxy.rs: the event loop of `run`. A schedule lists what the `select!` takes, in order, each
-- with what the outside answers; the loop ends when the token fires or the listener's channel closes.
use Prim.Native.String.{◌++◌ as concat}
use ios_webkit_debug_proxy_r.Base.{ℕ, String, Option, none, some, List, [], ◌∷◌, ltb, if◌then◌else◌}
use ios_webkit_debug_proxy_r.Base.Decimal.{to_string}
use ios_webkit_debug_proxy_r.Error.{port_bind, Result, ok, err, ◌>>=◌}
use ios_webkit_debug_proxy_r.Base.Dict.{keys}
use ios_webkit_debug_proxy_r.HttpServer.{WsToWiMessage, WiToWsRegistration}
use ios_webkit_debug_proxy_r.Plist.{Plist}
use ios_webkit_debug_proxy_r.WebInspector.{WiEvent}
use ios_webkit_debug_proxy_r.Proxy.State.{ProxyBridge, World, serves_list, emit}
use ios_webkit_debug_proxy_r.Proxy.Devices.{Outside, connect_device, disconnect_device}
use ios_webkit_debug_proxy_r.Proxy.Sockets.{handle_ws_message, handle_ws_registration}
use ios_webkit_debug_proxy_r.Proxy.Messages.{handle_wi_event}

abbrev pub start : World
start = record { devices = []; device_list = []; effects = [] }

-- The clean-up behind the loop.
unfoldable pub disconnect_all : ProxyBridge → List String → World → World
disconnect_all b [] w = w
disconnect_all b (device_id ∷ device_ids) w =
    disconnect_all b device_ids (disconnect_device b device_id w)

unfoldable pub bind_list : ℕ → Option String → World → Result World
bind_list port none w = ok (emit w (serves_list port))
bind_list port (some e) w = err (
    port_bind (concat "Failed to bind device list port " (concat (to_string port) (concat ": " e))))

-- The server of the device list, if the service is configured and its port is not 0.
unfoldable pub serve_list : ProxyBridge → (ℕ → Option String) → World → Result World
serve_list b bind w = elim b.http_service_config [
  | none ↦ ok w
  | some config ↦
      if ltb 0 config.device_list_port
      then bind_list config.device_list_port (bind config.device_list_port) w
      else ok w
]

module _ (p : Plist) where
  -- What one round of the `select!` takes from the channels.
  pub data Event : Type 0 where
    attached : String → Outside → Event
    detached : String → Event
    wi_event : String → WiEvent p → Event
    ws_message : String → WsToWiMessage → Event
    ws_registration : String → WiToWsRegistration → Event

  unfoldable pub step : ProxyBridge → World → Event → World
  step b w (attached device_id o) = connect_device p b device_id o w
  step b w (detached device_id) = disconnect_device b device_id w
  step b w (wi_event device_id event) = handle_wi_event p b device_id event w
  step b w (ws_message device_id msg) = handle_ws_message p device_id msg w
  step b w (ws_registration device_id reg) = handle_ws_registration device_id reg w

  unfoldable pub run_events : ProxyBridge → World → List Event → World
  run_events b w [] = w
  run_events b w (event ∷ events) = run_events b (step b w event) events

  -- The simulator is tried first, then the events are taken.
  unfoldable pub event_loop : ProxyBridge → Outside → World → List Event → World
  event_loop b o w events = run_events b (connect_device p b "SIMULATOR" o w) events

  -- The loop, and all devices dropped.
  unfoldable pub loop_and_clean : ProxyBridge → Outside → World → List Event → World
  loop_and_clean b o w events =
      let ran : World = event_loop b o w events in disconnect_all b (keys ran.devices) ran

  -- `bind` tells of a port why it cannot be bound, if it cannot.
  unfoldable pub run : ProxyBridge → (ℕ → Option String) → Outside → List Event → Result World
  run b bind o events = do
    listening ← serve_list b bind start
    ok (loop_and_clean b o listening events)
