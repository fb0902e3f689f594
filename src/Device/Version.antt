-- ===== src/Device/Version.antt =====
-- OS versions: what is packed is read back.
use ios_webkit_debug_proxy_r.Base.{ℕ, ◌%◌, ◌≡◌, arith, List, [], ◌∷◌}
use ios_webkit_debug_proxy_r.Device.{parse_device_os_version, result_os_version}

-- The parts that a version keeps.
abbrev pub kept : ℕ → ℕ → List ℕ → ℕ × ℕ × ℕ
kept major minor [] = (major % 256, minor % 256, 0)
kept major minor (patch ∷ parts) = (major % 256, minor % 256, patch % 256)

-- The version that is packed of two parts or more is read back as its first three parts, one byte
-- of each, with zero for a third part that is missing.
pub parse_device_os_version-result_os_version :
    (major minor : ℕ) (parts : List ℕ)
    → parse_device_os_version (result_os_version (major ∷ minor ∷ parts)) ≡ kept major minor parts
unfolding parse_device_os_version result_os_version
parse_device_os_version-result_os_version major minor [] = ground arith
parse_device_os_version-result_os_version major minor (patch ∷ parts) = ground arith
