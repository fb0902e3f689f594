-- ===== src/Proxy/Simulator.antt =====
-- src/proxy.rs: the stream to the simulator's WebInspector, connect_sim_webinspector, where there are
-- Unix sockets. A stream is given by its number.
use mathlib.Core.Option
use ios_webkit_debug_proxy_r.Base.{ℕ, String, ◌≡◌, refl, Option, none, some}
use ios_webkit_debug_proxy_r.HttpServer.Texts.{strip_prefix}

pub data SimStream : Type 0 where
  tcp : ℕ → SimStream
  unix : ℕ → SimStream

-- The two calls connect to an address and to a path; `none` is an error.
unfoldable pub connect_sim_webinspector :
    (String → Option ℕ) → (String → Option ℕ) → String → Option SimStream
connect_sim_webinspector connect_tcp connect_unix addr = elim (strip_prefix "unix:" addr) [
  | some path ↦ Option.map unix (connect_unix path)
  | none ↦ Option.map tcp (connect_tcp addr)
]

-- The stream's number, as `Outside` has it.
abbrev pub stream_of : SimStream → ℕ
stream_of (tcp stream) = stream
stream_of (unix stream) = stream

-- The simulator's part of what a call of `connect_device` meets.
abbrev pub simulator : (String → Option ℕ) → (String → Option ℕ) → String → Option ℕ
simulator connect_tcp connect_unix addr =
    Option.map stream_of (connect_sim_webinspector connect_tcp connect_unix addr)

unix_address :
    connect_sim_webinspector (λ addr. none) (λ path. some 5) "unix:/tmp/s" ≡ some (unix 5)
unfolding connect_sim_webinspector strip_prefix
unix_address = refl
