-- ===== src/WebInspector/Writer.antt =====
-- src/webinspector.rs: `wi_write_loop`. A run is the list of the packets that it takes from its
-- channel, each with how its write goes; it ends when the channel is closed or the token fires.
pub mod Sent
use Prim.Native.String.{◌++◌ as concat}
use ios_webkit_debug_proxy_r.Base.{ℕ, String, List, [], ◌∷◌, ◌++◌, Bytes, take}
use ios_webkit_debug_proxy_r.Error.{Result, ok, err, web_inspector}

-- `write_all` and `flush` of one packet: both succeed, the first fails behind some bytes, or the
-- second does. An I/O error is given by its text.
pub data Write : Type 0 where
  written : Write
  write_failed : ℕ → String → Write
  flush_failed : String → Write

-- The bytes that reach the stream, and how the loop returns.
unfoldable pub wi_write_loop : List (Bytes × Write) → Bytes × Result (Unit {0})
wi_write_loop [] = ([], ok tt)
wi_write_loop ((packet, written) ∷ packets) =
    let (out, result) = wi_write_loop packets in (packet ++ out, result)
wi_write_loop ((packet, write_failed n e) ∷ packets) =
    (take n packet, err (web_inspector (concat "Write failed: " e)))
wi_write_loop ((packet, flush_failed e) ∷ packets) =
    (packet, err (web_inspector (concat "Flush failed: " e)))
