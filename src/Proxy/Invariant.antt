-- ===== src/Proxy/Invariant.antt =====
-- The invariant of the proxy's state. The children prove that the handlers keep it: Runtimes for
-- one device's runtime, Sockets, Messages and Devices for the handlers, Reachable for whole runs,
-- Shared for what the servers see in them.
pub mod Runtimes
pub mod Sockets
pub mod Messages
pub mod Devices
pub mod Reachable
pub mod Shared
use ios_webkit_debug_proxy_r.Base.{
  ℕ, ◌≤◌, String, ◌≡◌, Option, some, List, map, string_eq, nat_eq, filter, ◌&&◌,
}
use ios_webkit_debug_proxy_r.Base.Dict.{HashMap, IsUniq, values}
use ios_webkit_debug_proxy_r.Base.Dict
use ios_webkit_debug_proxy_r.Device.{DeviceInfo}
use ios_webkit_debug_proxy_r.Proxy.State.{PageInfo, DeviceRuntime, World}
use ios_webkit_debug_proxy_r.Proxy.Pages.{entries}
use ios_webkit_debug_proxy_r.Proxy.Pages.Table.{IsTable}
use ios_webkit_debug_proxy_r.Proxy.Pages.Sync.{forget}
use ios_webkit_debug_proxy_r.Proxy.Devices.{device_info, is_some}
use ios_webkit_debug_proxy_r.Proxy.Messages.{table}

-- A device's runtime is consistent, with page numbers up to n: the page table is one, the state
-- that the servers see has the same connection flag and, but for the debugging clients, the same
-- pages; a page's two client fields agree; and the two maps of clients have the same keys.
pub record IsRuntime (n : ℕ) (r : DeviceRuntime) : Type 0 where
  pub is_table : IsTable (table r)
  pub bound : r.max_page_num ≤ n
  pub shared_connected : r.shared_state.connected ≡ r.connected
  pub shared_pages : map forget r.shared_state.pages ≡ map forget (entries r.pages)
  pub attached : (k : ℕ) (q : PageInfo) → Dict.get r.pages k ≡ some q → q.sender_id ≡ q.ws_client_id
  pub clients :
      (ws_id : String)
      → is_some (Dict.get r.ws_clients ws_id) ≡ is_some (Dict.get r.ws_client_txs ws_id)

-- The devices that the list shows, by the table.
abbrev pub shown : HashMap String DeviceRuntime → List DeviceInfo
shown devices = map device_info (filter (λ d. d.connected && is_some d.device_id) (values devices))

-- Each device stands under its identifier with a consistent runtime, no two on one port, and the
-- shared device list is that of the connected devices.
pub record IsWorld (n : ℕ) (w : World) : Type 0 where
  pub uniq : IsUniq w.devices
  pub keyed :
      (id : String) (r : DeviceRuntime) → Dict.get w.devices id ≡ some r → r.device_id ≡ some id
  pub runtime : (id : String) (r : DeviceRuntime) → Dict.get w.devices id ≡ some r → IsRuntime n r
  pub ports :
      (id id' : String) (r r' : DeviceRuntime)
      → Dict.get w.devices id ≡ some r
      → Dict.get w.devices id' ≡ some r'
      → r.port ≡ r'.port
      → id ≡ id'
  pub listed : w.device_list ≡ shown w.devices
