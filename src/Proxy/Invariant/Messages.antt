-- ===== src/Proxy/Invariant/Messages.antt =====
-- The handlers of a device's messages keep the invariant.
pub mod Notices
pub use Notices.{notify-IsWorld, relist-IsWorld}
use native.Mathlib.Nat.{le_refl}
use ios_webkit_debug_proxy_r.Base.{
  ℕ, ◌+◌, ◌≤◌, ◌<◌, ◌^◌, String, ◌≡◌, refl, sym, subst, Bool, true, not, Option, some, List, [],
  ◌∷◌, arith, string_eq, nat_eq, inl, inr, Option-cases, option_rule, if_rule, length,
}
use ios_webkit_debug_proxy_r.Base.Dict.{HashMap, IsUniq}
use ios_webkit_debug_proxy_r.Base.Dict
use ios_webkit_debug_proxy_r.Base.Dict.Laws.{IsUniq-modify, modify-eq-const, modify-absent}
use ios_webkit_debug_proxy_r.Plist.{Plist}
use ios_webkit_debug_proxy_r.Rpc.{
  RpcApp, RpcPage, RpcMessage, report_setup, report_connected_application_list,
  application_connected, application_disconnected, application_sent_listing, application_sent_data,
  application_updated, unknown,
}
use ios_webkit_debug_proxy_r.Proxy.State.{DeviceRuntime, ProxyBridge, World, Effect, PageInfo}
use ios_webkit_debug_proxy_r.Proxy.Pages.{remove_app_pages, sync_pages}
use ios_webkit_debug_proxy_r.Proxy.Pages.Table.{
  IsTable, remove_where-IsTable, apply_listing-IsTable, get_of_remove_where,
}
use ios_webkit_debug_proxy_r.Proxy.Pages.Listed.{apply_listing-Agrees, max_page_num-apply_listing}
use ios_webkit_debug_proxy_r.Proxy.Devices.{
  update_device_list, notify, notify_device_connected, notify_page_list_changed, is_some,
}
use ios_webkit_debug_proxy_r.Proxy.Sockets.{set_runtime}
use ios_webkit_debug_proxy_r.Proxy.Messages.{
  set_connected, handle_report_setup, connect_once, set_current_app, publish_pages, remove_app_id,
  table, handle_page_listing, send_forward_get_listing, add_app_id, add_apps, handle_rpc_message,
}
use ios_webkit_debug_proxy_r.Proxy.Invariant.{IsWorld}
use ios_webkit_debug_proxy_r.Proxy.Invariant.Runtimes.{
  SameDevice, IsWorld-Follows, IsWorld-mono, Follows-set, set_runtime-IsWorld, effects-IsWorld,
}
use ios_webkit_debug_proxy_r.Proxy.Invariant.Sockets.{send_rpc-IsWorld, handle_app_data-IsWorld}
use ios_webkit_debug_proxy_r.Proxy.Invariant.Messages.Notices.{
  notify_device_connected-IsWorld, connected-IsWorld,
}

module _ {n : ℕ} (b : ProxyBridge) (id : String) (w : World) (v : IsWorld n w) where
  handle_report_setup-IsWorld : IsWorld n (handle_report_setup b id w)
  unfolding handle_report_setup
  handle_report_setup-IsWorld =
      notify_device_connected-IsWorld b id _ (elim (Option-cases (Dict.get w.devices id)) [
        | inl absent ↦
            subst (λ m. IsWorld n (update_device_list (record w { devices = m })))
              (sym (modify-absent w.devices id set_connected absent)) (relist-IsWorld w v)
        | inr (r, got) ↦
            subst (λ m. IsWorld n (update_device_list (record w { devices = m })))
              (sym (modify-eq-const w.devices id set_connected r got))
              (connected-IsWorld w id r v got)
      ])

  connect_once-IsWorld : IsWorld n (connect_once b id w)
  unfolding connect_once
  connect_once-IsWorld =
      option_rule (IsWorld n) (Dict.get w.devices id) _ _ (λ _. v)
        λ r got.
          if_rule (IsWorld n) (not r.connected) _ _
            (λ _. notify_device_connected-IsWorld b id _ (connected-IsWorld w id r v got)) (λ _. v)

  publish_pages-IsWorld :
      (m : ℕ) (r r' : DeviceRuntime)
      → n ≤ m
      → Dict.get w.devices id ≡ some r
      → SameDevice r r'
      → IsTable (table r')
      → r'.max_page_num ≤ m
      → r'.shared_state.connected ≡ r'.connected
      → ((k : ℕ) (q : PageInfo) → Dict.get r'.pages k ≡ some q → q.sender_id ≡ q.ws_client_id)
      → ((ws_id : String)
          → is_some (Dict.get r'.ws_clients ws_id) ≡ is_some (Dict.get r'.ws_client_txs ws_id))
      → IsWorld m (publish_pages b id r' w)
  unfolding publish_pages notify_page_list_changed sync_pages
  publish_pages-IsWorld m r r' h got same is_table bound connected attached clients =
      notify-IsWorld b _ _ (
        set_runtime-IsWorld m w id r (sync_pages r') h v got
          (record {
            info = same.info;
            is_shown_eq = same.is_shown_eq;
            device_id = same.device_id;
            port = same.port;
          })
          (record {
            is_table = is_table;
            bound = bound;
            shared_connected = connected;
            shared_pages = refl;
            attached = attached;
            clients = clients;
          }))

  remove_app_id-IsWorld : (app_id : String) → IsWorld n (remove_app_id b id app_id w)
  unfolding remove_app_id remove_app_pages
  remove_app_id-IsWorld app_id =
      option_rule (IsWorld n) (Dict.get w.devices id) _ _ (λ _. v)
        λ r got.
          let old = v.runtime id r got in
          publish_pages-IsWorld n r _ (le_refl n) got
            (record { info = refl; is_shown_eq = refl; device_id = refl; port = refl })
            (remove_where-IsTable {t = table r} _ old.is_table) old.bound old.shared_connected
            (λ k q got'. old.attached k q (get_of_remove_where _ r.pages k q got')) old.clients

  handle_page_listing-IsWorld :
      (app_id : String) (pages : List RpcPage)
      → n + length pages < 2 ^ 32
      → IsWorld (n + length pages) (handle_page_listing b id app_id pages w)
  unfolding handle_page_listing
  handle_page_listing-IsWorld app_id pages small =
      option_rule (IsWorld (n + length pages)) (Dict.get w.devices id) _ _
        (λ _. IsWorld-mono (n + length pages) w (omega arith) v)
        λ r got.
          let old = v.runtime id r got in
          let room : r.max_page_num + length pages < 2 ^ 32 = omega (arith, old.bound) in
          publish_pages-IsWorld (n + length pages) r _ (omega arith) got
            (record { info = refl; is_shown_eq = refl; device_id = refl; port = refl })
            (apply_listing-IsTable app_id (table r) pages old.is_table room)
            (omega (
              arith,
              max_page_num-apply_listing app_id (table r) pages old.is_table room,
              old.bound,
            ))
            old.shared_connected
            (apply_listing-Agrees app_id (table r) pages old.is_table room old.attached) old.clients

-- The apps that a runtime has heard of do not matter to the invariant.
module _ {n : ℕ} (id : String) (w : World) (v : IsWorld n w) where
  apps-IsWorld :
      (r : DeviceRuntime) (app_ids : HashMap String Bool) (current_app : Option RpcApp)
      → Dict.get w.devices id ≡ some r
      → IsWorld n (set_runtime w id (record r { app_ids = app_ids; current_app = current_app }))
  apps-IsWorld r app_ids current_app got =
      let old = v.runtime id r got in
      set_runtime-IsWorld n w id r (record r { app_ids = app_ids; current_app = current_app })
        (le_refl n) v got
        (record { info = refl; is_shown_eq = refl; device_id = refl; port = refl })
        (record {
          is_table = old.is_table;
          bound = old.bound;
          shared_connected = old.shared_connected;
          shared_pages = old.shared_pages;
          attached = old.attached;
          clients = old.clients;
        })

  set_current_app-IsWorld : (app : RpcApp) → IsWorld n (set_current_app id app w)
  set_current_app-IsWorld app =
      let change : DeviceRuntime → DeviceRuntime = λ r. record r { current_app = some app } in
      elim (Option-cases (Dict.get w.devices id)) [
        | inl absent ↦
            subst (λ m. IsWorld n (record w { devices = m }))
              (sym (modify-absent w.devices id change absent)) v
        | inr (r, got) ↦
            subst (λ m. IsWorld n (record w { devices = m }))
              (sym (modify-eq-const w.devices id change r got))
              (apps-IsWorld r r.app_ids (some app) got)
      ]

-- How many page numbers a message can use up.
abbrev pub cost : RpcMessage → ℕ
cost (application_sent_listing app_id pages) = length pages
cost _ = 0

module _ (p : Plist) where
  add_app_id-IsWorld :
      {n : ℕ} (id app_id : String) (w : World) → IsWorld n w → IsWorld n (add_app_id p id app_id w)
  unfolding add_app_id send_forward_get_listing
  add_app_id-IsWorld {n} id app_id w v =
      option_rule (IsWorld n) (Dict.get w.devices id) _ _ (λ _. v)
        λ r got.
          if_rule (IsWorld n) (Dict.contains_key r.app_ids app_id) _ _ (λ _. v)
            λ _.
              let added : World =
                set_runtime w id (record r { app_ids = Dict.insert r.app_ids app_id true }) in
              let v' : IsWorld n added =
                apps-IsWorld id w v r (Dict.insert r.app_ids app_id true) r.current_app got in
              option_rule (IsWorld n) (Dict.get added.devices id) _ _ (λ _. v')
                (λ r' _. send_rpc-IsWorld p r' _ added v')

  add_apps-IsWorld :
      {n : ℕ} (id : String) (apps : List RpcApp) (w : World)
      → IsWorld n w
      → IsWorld n (add_apps p id apps w)
  unfolding add_apps
  add_apps-IsWorld id [] w v = v
  add_apps-IsWorld id (app ∷ apps) w v =
      add_apps-IsWorld id apps _
        (set_current_app-IsWorld id _ (add_app_id-IsWorld id app.app_id w v) app)

  pub handle_rpc_message-IsWorld :
      {n : ℕ} (b : ProxyBridge) (id : String) (msg : RpcMessage) (w : World)
      → n + cost msg < 2 ^ 32
      → IsWorld n w
      → IsWorld (n + cost msg) (handle_rpc_message p b id msg w)
  unfolding handle_rpc_message
  handle_rpc_message-IsWorld {n} b id (application_sent_listing app_id pages) w small v =
      handle_page_listing-IsWorld b id w v app_id pages small
  handle_rpc_message-IsWorld {n} b id report_setup w small v =
      IsWorld-mono (n + 0) _ (omega arith) (handle_report_setup-IsWorld b id w v)
  handle_rpc_message-IsWorld {n} b id (report_connected_application_list apps) w small v =
      IsWorld-mono (n + 0) _ (omega arith)
        (add_apps-IsWorld id apps _ (connect_once-IsWorld b id w v))
  handle_rpc_message-IsWorld {n} b id (application_connected app) w small v =
      IsWorld-mono (n + 0) _ (omega arith)
        (add_app_id-IsWorld id app.app_id _ (set_current_app-IsWorld id w v app))
  handle_rpc_message-IsWorld {n} b id (application_disconnected app) w small v =
      IsWorld-mono (n + 0) _ (omega arith) (remove_app_id-IsWorld b id w v app.app_id)
  handle_rpc_message-IsWorld {n} b id (application_sent_data app_id dest_id bytes) w small v =
      IsWorld-mono (n + 0) _ (omega arith) (handle_app_data-IsWorld p id w v dest_id bytes)
  handle_rpc_message-IsWorld {n} b id (application_updated app_id dest_id) w small v =
      IsWorld-mono (n + 0) _ (omega arith) (add_app_id-IsWorld id dest_id w v)
  handle_rpc_message-IsWorld {n} b id (unknown selector) w small v =
      IsWorld-mono (n + 0) _ (omega arith) v
