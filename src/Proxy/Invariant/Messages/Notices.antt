-- ===== src/Proxy/Invariant/Messages/Notices.antt =====
-- The notices to the listener and the device list keep the invariant.
use native.Mathlib.Nat.{le_refl}
use ios_webkit_debug_proxy_r.Base.{
  ℕ, String, ◌≡◌, refl, some, string_eq, nat_eq, option_rule, if_rule,
}
use ios_webkit_debug_proxy_r.Base.Dict.{HashMap, IsUniq}
use ios_webkit_debug_proxy_r.Base.Dict
use ios_webkit_debug_proxy_r.Base.Dict.Laws.{IsUniq-modify}
use ios_webkit_debug_proxy_r.Proxy.State.{DeviceRuntime, ProxyBridge, World, Effect}
use ios_webkit_debug_proxy_r.Proxy.Devices.{update_device_list, notify, notify_device_connected}
use ios_webkit_debug_proxy_r.Proxy.Sockets.{set_runtime}
use ios_webkit_debug_proxy_r.Proxy.Messages.{set_connected}
use ios_webkit_debug_proxy_r.Proxy.Invariant.{IsWorld}
use ios_webkit_debug_proxy_r.Proxy.Invariant.Runtimes.{
  IsWorld-Follows, Follows-set, effects-IsWorld,
}

pub notify-IsWorld :
    {n : ℕ} (b : ProxyBridge) (w : World) (effect : Effect)
    → IsWorld n w
    → IsWorld n (notify b w effect)
notify-IsWorld {n} b w effect v =
    if_rule (IsWorld n) b.has_listener _ _ (λ _. effects-IsWorld w _ v) (λ _. v)

pub notify_device_connected-IsWorld :
    {n : ℕ} (b : ProxyBridge) (id : String) (w : World)
    → IsWorld n w
    → IsWorld n (notify_device_connected b id w)
unfolding notify_device_connected
notify_device_connected-IsWorld {n} b id w v =
    option_rule (IsWorld n) (Dict.get w.devices id) _ _ (λ _. v) (λ r _. notify-IsWorld b w _ v)

-- A runtime that is replaced in the table, with the list made anew.
pub connected-IsWorld :
    {n : ℕ} (w : World) (id : String) (r : DeviceRuntime)
    → IsWorld n w
    → Dict.get w.devices id ≡ some r
    → IsWorld n (update_device_list (set_runtime w id (set_connected r)))
unfolding update_device_list
connected-IsWorld {n} w id r v got =
    let old = v.runtime id r got in
    IsWorld-Follows n w _ v (IsUniq-modify w.devices id _ v.uniq)
      (Follows-set n w id r (set_connected r) (le_refl n) v got (record {
        device_id = refl;
        port = refl;
        runtime = record {
          is_table = old.is_table;
          bound = old.bound;
          shared_connected = refl;
          shared_pages = old.shared_pages;
          attached = old.attached;
          clients = old.clients;
        };
      }))
      refl

pub relist-IsWorld : {n : ℕ} (w : World) → IsWorld n w → IsWorld n (update_device_list w)
unfolding update_device_list
relist-IsWorld w v = record {
  uniq = v.uniq;
  keyed = v.keyed;
  runtime = v.runtime;
  ports = v.ports;
  listed = refl;
}
