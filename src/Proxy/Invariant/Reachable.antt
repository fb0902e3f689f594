-- ===== src/Proxy/Invariant/Reachable.antt =====
-- Every world that the event loop reaches keeps the invariant, and the clean-up empties the table.
use ios_webkit_debug_proxy_r.Base.{
  ℕ, ◌+◌, ◌^◌, ◌<◌, String, ◌≡◌, refl, sym, ap, ◌∙◌, Option, none, some, List, [], ◌∷◌, arith, ◌==◌,
  string_eq, nat_eq, str_eq_iff, if◌then◌else◌, option_rule, if_rule, ltb,
}
use ios_webkit_debug_proxy_r.Base.Dict.{HashMap, IsUniq, values, keys}
use ios_webkit_debug_proxy_r.Base.Dict
use ios_webkit_debug_proxy_r.Base.Dict.Laws.{get-remove, get-head}
use ios_webkit_debug_proxy_r.Error.{port_bind, Result, ok, err, ◌>>=◌}
use ios_webkit_debug_proxy_r.Rpc.{RpcMessage}
use ios_webkit_debug_proxy_r.Rpc.Parse.{parse_rpc_message}
use ios_webkit_debug_proxy_r.Plist.{Plist}
use ios_webkit_debug_proxy_r.WebInspector.{recv_plist}
use ios_webkit_debug_proxy_r.Proxy.State.{DeviceRuntime, PortRange, ProxyBridge, World}
use ios_webkit_debug_proxy_r.Proxy.Devices.{Outside, disconnect_device, update_device_list}
use ios_webkit_debug_proxy_r.Proxy.Messages.{handle_rpc_message, handle_wi_event}
use ios_webkit_debug_proxy_r.Proxy.Run.{
  start, Event, attached, detached, wi_event, ws_message, ws_registration, step, run_events,
  disconnect_all, event_loop, loop_and_clean, serve_list, bind_list, run,
}
use ios_webkit_debug_proxy_r.Proxy.Invariant.{IsWorld, shown}
use ios_webkit_debug_proxy_r.Proxy.Invariant.Runtimes.{IsWorld-mono}
use ios_webkit_debug_proxy_r.Proxy.Invariant.Sockets.{
  handle_ws_message-IsWorld, handle_ws_registration-IsWorld,
}
use ios_webkit_debug_proxy_r.Proxy.Invariant.Messages.{cost, handle_rpc_message-IsWorld}
use ios_webkit_debug_proxy_r.Proxy.Invariant.Devices.{
  release-devices, connect_device-IsWorld, disconnect_device-IsWorld,
}

empty-IsWorld : (w : World) → w.devices ≡ [] → w.device_list ≡ [] → IsWorld 0 w
unfolding Dict.get
empty-IsWorld w none_yet none_shown = record {
  uniq = rw none_yet tt;
  keyed = λ id r got. absurd (cc);
  runtime = λ id r got. absurd (cc);
  ports = λ id id' r r' got. absurd (cc);
  listed = none_shown ∙ ap shown (sym none_yet);
}

-- No device is left, or the port of the device list could not be bound.
abbrev pub Ends : Result World → Type 0
Ends (ok w) = (w.devices ≡ []) × (w.device_list ≡ [])
Ends (err e) = (text : String) × (e ≡ port_bind text)

abbrev received_cost : Result RpcMessage → ℕ
received_cost (ok msg) = cost msg
received_cost (err e) = 0

module _ (p : Plist) where
  -- How many page numbers an event can use up: the pages of a listing.
  abbrev pub event_cost : Event p → ℕ
  event_cost (wi_event id (recv_plist rpc_dict)) = received_cost (parse_rpc_message p rpc_dict)
  event_cost _ = 0

  abbrev pub total_cost : List (Event p) → ℕ
  total_cost [] = 0
  total_cost (event ∷ events) = event_cost event + total_cost events

  received-IsWorld :
      {n : ℕ} (b : ProxyBridge) (id : String) (r : Result RpcMessage) (w : World)
      → n + received_cost r < 2 ^ 32
      → IsWorld n w
      → IsWorld
          (n + received_cost r)
          (elim r [ ok msg ↦ handle_rpc_message p b id msg w | err e ↦ w ])
  received-IsWorld {n} b id (ok msg) w small v = handle_rpc_message-IsWorld p b id msg w small v
  received-IsWorld {n} b id (err e) w small v = IsWorld-mono (n + 0) w (omega arith) v

  module _ (b : ProxyBridge) (range : PortRange) (ranged : b.device_ports ≡ some range) where
    step-IsWorld :
        {n : ℕ} (event : Event p) (w : World)
        → n + event_cost event < 2 ^ 32
        → IsWorld n w
        → IsWorld (n + event_cost event) (step p b w event)
    unfolding step handle_wi_event
    step-IsWorld {n} (attached id o) w small v =
        IsWorld-mono (n + 0) _ (omega arith) (connect_device-IsWorld p b id o w range ranged v)
    step-IsWorld {n} (detached id) w small v =
        IsWorld-mono (n + 0) _ (omega arith) (disconnect_device-IsWorld b id w v)
    step-IsWorld {n} (wi_event id (recv_plist rpc_dict)) w small v =
        received-IsWorld b id (parse_rpc_message p rpc_dict) w small v
    step-IsWorld {n} (ws_message id msg) w small v =
        IsWorld-mono (n + 0) _ (omega arith) (handle_ws_message-IsWorld p id w v msg)
    step-IsWorld {n} (ws_registration id reg) w small v =
        IsWorld-mono (n + 0) _ (omega arith) (handle_ws_registration-IsWorld p id w v reg)

    loop-IsWorld :
        (events : List (Event p)) (n : ℕ) (w : World)
        → n + total_cost events < 2 ^ 32
        → IsWorld n w
        → IsWorld (n + total_cost events) (run_events p b w events)
    unfolding run_events
    loop-IsWorld [] n w small v = IsWorld-mono (n + 0) w (omega arith) v
    loop-IsWorld (event ∷ events) n w small v = IsWorld-mono _ _ (omega arith) (
        loop-IsWorld events (n + event_cost event) (step p b w event) (omega arith)
          (step-IsWorld event w (omega arith) v))

disconnect_device-get :
    (b : ProxyBridge) (id : String) (w : World) (j : String)
    → Dict.get (disconnect_device b id w).devices j
      ≡ (if id == j then none else Dict.get w.devices j)
unfolding disconnect_device update_device_list
disconnect_device-get b id w j =
    option_rule
      (λ (u : World). Dict.get u.devices j ≡ (if id == j then none else Dict.get w.devices j))
      (Dict.get w.devices id) _ _ (λ absent. ground (arith, str_eq_iff id j))
      λ r _.
        ap (λ m. Dict.get m j)
          (release-devices b r (record w { devices = Dict.remove w.devices id }))
        ∙ get-remove w.devices id j

disconnect_all-get :
    (b : ProxyBridge) (ids : List String) (w : World) (j : String)
    → Dict.get (disconnect_all b ids w).devices j
      ≡ (if Dict.contains ids j then none else Dict.get w.devices j)
unfolding disconnect_all Dict.contains
disconnect_all-get b [] w j = refl
disconnect_all-get b (id ∷ ids) w j =
    ground
      (arith, disconnect_all-get b ids (disconnect_device b id w) j, disconnect_device-get b id w j)

contains-keys :
    (m : HashMap String DeviceRuntime) (j : String)
    → (if Dict.contains (keys m) j then none else Dict.get m j) ≡ none
unfolding Dict.contains Dict.get
contains-keys [] j = refl
contains-keys ((k, r) ∷ m) j = ground (arith, contains-keys m j)

emptied : (m : HashMap String DeviceRuntime) → ((j : String) → Dict.get m j ≡ none) → m ≡ []
emptied [] gone = refl
emptied ((k, r) ∷ m) gone = absurd (ground (arith, gone k, get-head k r m))

-- The clean-up takes every device away.
disconnect_all-devices :
    (b : ProxyBridge) (w : World) → (disconnect_all b (keys w.devices) w).devices ≡ []
disconnect_all-devices b w =
    emptied _ (λ j. disconnect_all-get b (keys w.devices) w j ∙ contains-keys w.devices j)

disconnect_all-IsWorld :
    {n : ℕ} (b : ProxyBridge) (ids : List String) (w : World)
    → IsWorld n w
    → IsWorld n (disconnect_all b ids w)
unfolding disconnect_all
disconnect_all-IsWorld b [] w v = v
disconnect_all-IsWorld b (id ∷ ids) w v =
    disconnect_all-IsWorld b ids (disconnect_device b id w) (disconnect_device-IsWorld b id w v)

bind_list-Ends : (port : ℕ) (e : Option String) → Ends (bind_list port e start)
unfolding bind_list
bind_list-Ends port none = (refl, refl)
bind_list-Ends port (some e) = (_, refl)

serve_list-Ends : (b : ProxyBridge) (bind : ℕ → Option String) → Ends (serve_list b bind start)
unfolding serve_list
serve_list-Ends b bind =
    option_rule Ends b.http_service_config _ _ (λ _. (refl, refl))
      λ config _.
        if_rule Ends (ltb 0 config.device_list_port) _ _
          (λ _. bind_list-Ends config.device_list_port (bind config.device_list_port))
          (λ _. (refl, refl))

then-Ends :
    (r : Result World) (f : World → World)
    → Ends r
    → ((w : World) → w.devices ≡ [] → w.device_list ≡ [] → Ends (ok (f w)))
    → Ends (r >>= λ w. ok (f w))
then-Ends (ok w) f ends go = go w ends.0 ends.1
then-Ends (err e) f ends go = ends

module _ (p : Plist) (b : ProxyBridge) (range : PortRange)
    (ranged : b.device_ports ≡ some range) where
  -- Where the bridge has a range of device ports and the listings of a run name fewer than 2 ^ 32
  -- pages in all, the world after the simulator is tried and any events are taken, from a world
  -- without devices, is well formed: each device stands once under its identifier, no two on one
  -- port, the device list shows the connected ones, and each device's page table is consistent
  -- with what its servers see.
  pub event_loop-IsWorld :
      (o : Outside) (w : World) (events : List (Event p))
      → w.devices ≡ []
      → w.device_list ≡ []
      → total_cost p events < 2 ^ 32
      → IsWorld (total_cost p events) (event_loop p b o w events)
  unfolding event_loop
  event_loop-IsWorld o w events none_yet none_shown small = IsWorld-mono _ _ (omega arith) (
      loop-IsWorld p b range ranged events 0 _ (omega arith) (
        connect_device-IsWorld p b "SIMULATOR" o w range ranged
          (empty-IsWorld w none_yet none_shown)))

  -- Where the bridge has a range of device ports and the listings of a run name fewer than 2 ^ 32
  -- pages in all, a run either fails because the port of the device list cannot be bound, or it
  -- ends with no device in the table and none in the shared list.
  pub run-clears :
      (bind : ℕ → Option String) (o : Outside) (events : List (Event p))
      → total_cost p events < 2 ^ 32
      → Ends (run p b bind o events)
  unfolding run loop_and_clean
  run-clears bind o events small =
      then-Ends (serve_list b bind start) _ (serve_list-Ends b bind) λ w none_yet none_shown.
        let ran : World = event_loop p b o w events in
        let v = event_loop-IsWorld o w events none_yet none_shown small in
        let cleared = disconnect_all-devices b ran in
        (cleared, (disconnect_all-IsWorld b (keys ran.devices) ran v).listed ∙ ap shown cleared)
