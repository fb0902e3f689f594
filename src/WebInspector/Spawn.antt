-- ===== src/WebInspector/Spawn.antt =====
-- src/webinspector.rs: spawn_webinspector, the two tasks on one stream.
use ios_webkit_debug_proxy_r.Base.{ℕ, String, Bool, List, Bytes}
use ios_webkit_debug_proxy_r.Error.{Result}
use ios_webkit_debug_proxy_r.Plist.{Plist}
use ios_webkit_debug_proxy_r.WebInspector.{WiEvent, new_codec}
use ios_webkit_debug_proxy_r.WebInspector.Reader.{at_header, wi_read_loop}
use ios_webkit_debug_proxy_r.WebInspector.Writer.{Write, wi_write_loop}

-- What the two tasks meet: the bytes that come in, how many `select!`s of the read loop end before it
-- is cancelled, how many events the channel takes, and the packets with how their writes go.
pub record Stream : Type 0 where
  pub incoming : Bytes
  pub polls : ℕ
  pub accepts : ℕ
  pub packets : List (Bytes × Write)

-- The events that are sent and the bytes that are written, each with how its task returns.
pub record Spawned (p : Plist) : Type 0 where
  pub read : List (WiEvent p) × Result (Unit {0})
  pub wrote : Bytes × Result (Unit {0})

unfoldable pub spawn_webinspector : (p : Plist) → String → Bool → Bool → Stream → Spawned p
spawn_webinspector p eof is_sim partials_supported s = record {
  read = wi_read_loop p eof s.polls (record {
    codec = new_codec is_sim partials_supported;
    phase = at_header;
    stream = s.incoming;
    accepts = s.accepts;
  });
  wrote = wi_write_loop s.packets;
}
