-- ===== src/Proxy/Devices/Partials.antt =====
-- Which devices get their messages in pieces.
use mathlib.Core.Option
use ios_webkit_debug_proxy_r.Base.{
  ℕ, ◌%◌, String, ◌≡◌, ap, ◌∙◌, false, some, List, [], ◌∷◌, arith, ltb, ◌==◌, string_eq,
}
use ios_webkit_debug_proxy_r.Device.{result_os_version}
use ios_webkit_debug_proxy_r.Proxy.State.{ProxyBridge}
use ios_webkit_debug_proxy_r.Proxy.Devices.{Outside, DeviceConnection, Inspector, connect_inspector}

-- The version is below that of iOS 11.
result_os_version-ltb :
    (major minor : ℕ) (parts : List ℕ)
    → ltb (result_os_version (major ∷ minor ∷ parts)) 0xb0000 ≡ ltb (major % 256) 11
unfolding result_os_version
result_os_version-ltb major minor [] = ground arith
result_os_version-ltb major minor (patch ∷ parts) = ground arith

-- A device that is reached and is no simulator gets its messages in pieces if and only if the
-- first part of its version, of which one byte is kept, is below 11, where its version is that of
-- at least two parts.
pub connect_inspector-partials :
    (b : ProxyBridge) (id : String) (o : Outside) (conn : DeviceConnection) (major minor : ℕ)
    (parts : List ℕ)
    → (id == "SIMULATOR") ≡ false
    → o.device id ≡ some conn
    → conn.device_os_version ≡ result_os_version (major ∷ minor ∷ parts)
    → Option.map (λ (i : Inspector). i.codec.partials_supported) (connect_inspector b id o)
      ≡ some (ltb (major % 256) 11)
unfolding connect_inspector
connect_inspector-partials b id o conn major minor parts real reached version =
    rw (real, reached)
      (ap some (ap (λ v. ltb v 0xb0000) version ∙ result_os_version-ltb major minor parts))
