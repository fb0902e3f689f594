-- ===== src/WebInspector/Writer/Sent.antt =====
-- A message from the call that sends it to the loop that reads it.
use ios_webkit_debug_proxy_r.Base.{
  ℕ, zero, suc, ◌≤◌, String, ◌≡◌, refl, sym, ap, ◌∙◌, Bool, true, some, List, [], ◌∷◌, ◌++◌, arith,
  Bytes, length, map, append_assoc, take, drop, take-append-drop,
}
use ios_webkit_debug_proxy_r.Error.{Result, ok}
use ios_webkit_debug_proxy_r.Plist.{Plist, Laws}
use ios_webkit_debug_proxy_r.WebInspector.{
  WebInspectorCodec, recv_plist, max_rpc_len, max_body_length, wrap_chunk, encode_plist,
}
use ios_webkit_debug_proxy_r.WebInspector.Reader.{
  at_header, prepend, wi_read_loop, send_packets, send_plist,
}
use ios_webkit_debug_proxy_r.WebInspector.Reader.Packets.{wire, reader, rounds}
use ios_webkit_debug_proxy_r.WebInspector.Reader.RoundTrip.{read_loop-encode_partial}
use ios_webkit_debug_proxy_r.WebInspector.Writer.{
  Write, written, write_failed, flush_failed, wi_write_loop,
}

-- A channel that is open long enough takes all packets.
send_packets-all :
    (packets : List Bytes) (accepts : ℕ)
    → length packets ≤ accepts
    → send_packets accepts packets ≡ (packets, ok tt)
unfolding send_packets
send_packets-all [] accepts open_ = refl
send_packets-all (packet ∷ packets) zero open_ = absurd (omega arith)
send_packets-all (packet ∷ packets) (suc accepts) open_ =
    rw (send_packets-all packets accepts (omega arith))

-- Packets that are all written are on the wire in their order.
wi_write_loop-wire :
    (packets : List Bytes)
    → wi_write_loop (map (λ packet. (packet, written)) packets) ≡ (wire packets, ok tt)
unfolding wi_write_loop
wi_write_loop-wire [] = refl
wi_write_loop-wire (packet ∷ packets) = rw (wi_write_loop-wire packets)

-- However the writes go, what the write loop puts on the stream is a first part of the packets
-- that it takes, in their order.
pub wi_write_loop-prefix :
    (steps : List (Bytes × Write))
    → (rest : Bytes) × (wire (map (λ step. step.0) steps) ≡ (wi_write_loop steps).0 ++ rest)
unfolding wi_write_loop
wi_write_loop-prefix [] = ([], refl)
wi_write_loop-prefix ((packet, written) ∷ steps) =
    let (rest, cut) = wi_write_loop-prefix steps in
    (rest, ap (λ out. packet ++ out) cut ∙ sym (append_assoc packet (wi_write_loop steps).0 rest))
wi_write_loop-prefix ((packet, write_failed n e) ∷ steps) =
    let later : Bytes = wire (map (λ step. step.0) steps) in
    (
      drop n packet ++ later,
      ap (λ out. out ++ later) (sym (take-append-drop n packet))
          ∙ append_assoc (take n packet) (drop n packet) later,
    )
wi_write_loop-prefix ((packet, flush_failed e) ∷ steps) = (wire (map (λ step. step.0) steps), refl)

-- What the write loop puts out of a message that is sent.
abbrev pub put_out : (p : Plist) → ℕ → WebInspectorCodec → Bytes → Bytes × Result (Unit {0})
put_out p accepts codec rpc_bin =
    wi_write_loop (map (λ packet. (packet, written)) (send_plist p accepts codec rpc_bin).0)

put_out-wire :
    (p : Plist) (accepts : ℕ) (codec : WebInspectorCodec) (rpc_bin : Bytes)
    → length (encode_plist p codec rpc_bin) ≤ accepts
    → put_out p accepts codec rpc_bin ≡ (wire (encode_plist p codec rpc_bin), ok tt)
unfolding send_plist
put_out-wire p accepts codec rpc_bin open_ =
    ap
      (λ (sent : List Bytes × Result (Unit {0})).
        wi_write_loop (map (λ packet. (packet, written)) sent.0))
      (send_packets-all (encode_plist p codec rpc_bin) accepts open_)
    ∙ wi_write_loop-wire (encode_plist p codec rpc_bin)

module _ (p : Plist) (laws : Laws p) (eof : String)
    (fits : (is_partial : Bool) (chunk : Bytes)
      → length chunk ≤ max_rpc_len
      → length (wrap_chunk p is_partial chunk) ≤ max_body_length) where
  open p use {Value, from_bytes}

  -- A message that is sent in pieces by a codec with an empty buffer, on a channel that takes all
  -- its packets, and written without an error is read by the other side as one event with the
  -- message's plist, and the loop goes on with the bytes behind it. It holds for any reader
  -- channel that takes one more event, where the plist crate meets its laws and no wrapped piece
  -- exceeds the limit.
  pub put_out-read :
      (codec : WebInspectorCodec) (rpc_bin rest : Bytes) (accepts n a : ℕ) (v : Value)
      → length (encode_plist p codec rpc_bin) ≤ accepts
      → codec.partials_supported ≡ true
      → codec.partial_buffer ≡ []
      → from_bytes rpc_bin ≡ ok v
      → wi_read_loop p eof
          (rounds (encode_plist p codec rpc_bin) n)
          (reader codec at_header ((put_out p accepts codec rpc_bin).0 ++ rest) (suc a))
        ≡ prepend p (some (recv_plist v)) (wi_read_loop p eof n (reader codec at_header rest a))
  put_out-read codec rpc_bin rest accepts n a v open_ partials empty parsed =
      ap
        (λ (out : Bytes × Result (Unit {0})).
          wi_read_loop p eof (rounds (encode_plist p codec rpc_bin) n)
            (reader codec at_header (out.0 ++ rest) (suc a)))
        (put_out-wire p accepts codec rpc_bin open_)
      ∙ read_loop-encode_partial p laws eof fits codec codec rpc_bin rest n a v partials partials
          empty parsed
