-- ===== src/WebInspector/Reader.antt =====
-- src/webinspector.rs: `wi_read_loop` and `send_plist`. The stream is the list of
-- bytes that the peer sends before it closes. The loop's first argument counts the `select!`s that
-- end before the cancellation token fires: at zero the token has fired.
pub mod Packets
pub mod Chunks
pub mod RoundTrip
use Prim.Native.String.{◌++◌ as concat}
use ios_webkit_debug_proxy_r.Base.{
  ℕ, zero, suc, ◌-◌, String, Bool, true, false, not, Option, none, some, List, [], ◌∷◌, ◌++◌, leb,
  ltb, ◌==◌, nat_eq, if◌then◌else◌, Bytes, length, take, drop,
}
use ios_webkit_debug_proxy_r.Error.{Result, ok, err, web_inspector, channel_closed}
use ios_webkit_debug_proxy_r.Plist.{Plist}
use ios_webkit_debug_proxy_r.WebInspector.{
  WebInspectorCodec, WiEvent, parse_length, decode_body, encode_plist,
}

-- `read_exact` into a buffer of n bytes.
unfoldable pub read_exact : ℕ → Bytes → Option (Bytes × Bytes)
read_exact n stream = if leb n (length stream) then some (take n stream, drop n stream) else none

-- Which of the two `select!`s of the loop comes next.
pub data Phase : Type 0 where
  at_header : Phase
  at_body : ℕ → Phase

-- `accepts` is how many events the channel takes before its receiver is dropped.
pub record Reader : Type 0 where
  pub codec : WebInspectorCodec
  pub phase : Phase
  pub stream : Bytes
  pub accepts : ℕ

module _ (p : Plist) where
  -- What one `select!` leads to: the loop returns, or goes on and may have sent an event.
  pub data Polled : Type 0 where
    returns : Result (Unit {0}) → Polled
    continues : Reader → Option (WiEvent p) → Polled

  unfoldable pub send_event : Reader → ℕ → WiEvent p → Polled
  send_event r zero event = returns (ok tt)
  send_event r (suc accepts) event = continues (record r { accepts = accepts }) (some event)

  unfoldable pub decode_event : Reader → WebInspectorCodec × Result (Option (WiEvent p)) → Polled
  unfolding send_event
  decode_event r (codec, ok (some event)) = send_event (record r { codec = codec }) r.accepts event
  decode_event r (codec, ok none) = continues (record r { codec = codec }) none
  decode_event r (codec, err e) = continues (record r { codec = codec }) none

  abbrev pub prepend :
      Option (WiEvent p)
      → List (WiEvent p) × Result (Unit {0})
      → List (WiEvent p) × Result (Unit {0})
  prepend none (events, result) = (events, result)
  prepend (some event) (events, result) = (event ∷ events, result)

-- `eof` is the text of the I/O error of a stream that ends early.
module _ (p : Plist) (eof : String) where
  poll_header : Reader → Polled p
  poll_header r = elim (read_exact 4 r.stream) [
    | none ↦ returns (err (web_inspector (concat "Failed to read length header: " eof)))
    | some (len_buf, rest) ↦ elim (parse_length len_buf) [
      | err e ↦ returns (err e)
      | ok body_length ↦
          if body_length == 0
          then continues (record r { stream = rest }) none
          else continues (record r { stream = rest; phase = at_body body_length }) none
    ]
  ]

  poll_body : Reader → ℕ → Polled p
  unfolding decode_event
  poll_body r body_length = elim (read_exact body_length r.stream) [
    | none ↦ returns (err (web_inspector (concat "Failed to read message body: " eof)))
    | some (body, rest) ↦
        decode_event p (record r { stream = rest; phase = at_header }) (decode_body p r.codec body)
  ]

  poll_phase : Phase → Reader → Polled p
  unfolding poll_header poll_body
  poll_phase at_header r = poll_header r
  poll_phase (at_body body_length) r = poll_body r body_length

  unfoldable pub poll : Reader → Polled p
  unfolding poll_phase
  poll r = poll_phase r.phase r

  -- The events that the loop sends, and how it returns.
  unfoldable pub wi_read_loop : ℕ → Reader → List (WiEvent p) × Result (Unit {0})
  wi_read_loop zero r = ([], ok tt)
  wi_read_loop (suc polls) r = elim (poll r) [
    | returns result ↦ ([], result)
    | continues r' event ↦ prepend p event (wi_read_loop polls r')
  ]

-- `WebInspectorHandle::send_plist`: the packets are queued one by one until the channel closes.
-- `accepts` is how many it takes before that.
unfoldable pub send_packets : ℕ → List Bytes → List Bytes × Result (Unit {0})
send_packets accepts [] = ([], ok tt)
send_packets zero (packet ∷ packets) = ([], err channel_closed)
send_packets (suc accepts) (packet ∷ packets) =
    let (sent, result) = send_packets accepts packets in (packet ∷ sent, result)

unfoldable pub send_plist :
    (p : Plist) → ℕ → WebInspectorCodec → Bytes → List Bytes × Result (Unit {0})
send_plist p accepts codec rpc_bin = send_packets accepts (encode_plist p codec rpc_bin)
