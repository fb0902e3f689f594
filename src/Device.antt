-- ===== src/Device.antt =====
-- src/lib.rs: what the library shows of devices and pages to its listener.
pub mod Version
use ios_webkit_debug_proxy_r.Base.{ℕ, ◌+◌, ◌*◌, ◌/◌, ◌%◌, ◌^◌, String, List, [], ◌∷◌}

-- A device that the list shows.
pub record DeviceInfo : Type 0 where
  pub device_id : String
  pub device_name : String
  pub device_os_version : ℕ
  pub port : ℕ

pub data PageType : Type 0 where
  unknown_page java_script web_page : PageType

pub record DebuggablePageInfo : Type 0 where
  pub device_id : String
  pub page_num : ℕ
  pub page_type : PageType
  pub name : String
  pub web_socket_debugger_url : String
  pub device_os_version : ℕ

-- The source does not mask the major number.
unfoldable pub parse_device_os_version : ℕ → ℕ × ℕ × ℕ
parse_device_os_version version = (version / 2 ^ 16, version / 2 ^ 8 % 256, version % 256)

-- src/idevice_ext.rs, connect_to_device_sync: the version of the parts that its text splits into,
-- one byte each. The `|` of bytes that do not overlap is their sum.
unfoldable pub result_os_version : List ℕ → ℕ
result_os_version (major ∷ minor ∷ patch ∷ parts) =
    major % 256 * 2 ^ 16 + minor % 256 * 2 ^ 8 + patch % 256
result_os_version (major ∷ minor ∷ []) = major % 256 * 2 ^ 16 + minor % 256 * 2 ^ 8
result_os_version _ = 0
