-- ===== src/WebInspector/Header.antt =====
-- The length header: what `build_packet` writes `parse_length` reads.
use ios_webkit_debug_proxy_r.Base.{◌≤◌, ◌≡◌, refl, ◌++◌, arith, Bytes, length, take}
use ios_webkit_debug_proxy_r.Error.{ok}
use ios_webkit_debug_proxy_r.WebInspector.{build_packet, parse_length, max_body_length}

-- The header of a packet, before its body.
abbrev pub header : Bytes → Bytes
header body = take 4 (build_packet body)

-- The length header that a packet of at most the limit starts with is read back as the length of
-- its body.
pub parse_length-header :
    (body : Bytes) → length body ≤ max_body_length → parse_length (header body) ≡ ok (length body)
unfolding parse_length build_packet
parse_length-header body h = ground arith

pub build_packet-append : (body : Bytes) → build_packet body ≡ header body ++ body
unfolding build_packet
build_packet-append body = refl

pub length-header : (body : Bytes) → length (header body) ≡ 4
unfolding build_packet
length-header body = refl
