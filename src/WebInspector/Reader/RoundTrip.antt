-- ===== src/WebInspector/Reader/RoundTrip.antt =====
-- A message that `encode_plist` splits into packets, read back by `wi_read_loop`.
use ios_webkit_debug_proxy_r.Base.{
  ℕ, zero, suc, ◌+◌, ◌-◌, ◌≤◌, ◌<◌, String, ◌≡◌, sym, ap, ◌∙◌, Bool, true, false, none, some, List,
  [], ◌∷◌, ◌++◌, append_assoc, arith, inl, inr, ltb, Bytes, length, take, drop, is_empty, drop-drop,
  take-append-drop, length-drop, length-take, Bool-cases, nat_eq,
}
use ios_webkit_debug_proxy_r.Error.{ok}
use ios_webkit_debug_proxy_r.Plist.{Plist, Laws}
use ios_webkit_debug_proxy_r.WebInspector.{
  WebInspectorCodec, recv_plist, max_rpc_len, max_body_length, build_packet, wrap_chunk,
  accept_chunk, encode_chunks, encode_plist, parse_plist, decode_body,
}
use ios_webkit_debug_proxy_r.WebInspector.Reader.{at_header, decode_event, prepend, wi_read_loop}
use ios_webkit_debug_proxy_r.WebInspector.Reader.Packets.{
  wire, reader, rounds, read_packet, read_loop-packet, read_loop-empty,
}
use ios_webkit_debug_proxy_r.WebInspector.Reader.Chunks.{
  parse_plist-wrap, accept_chunk-final, encode_chunks-partial, encode_chunks-final,
  encode_plist-partial,
}

module _ (p : Plist) (laws : Laws p) (eof : String)
    (fits : (is_partial : Bool) (chunk : Bytes)
      → length chunk ≤ max_rpc_len
      → length (wrap_chunk p is_partial chunk) ≤ max_body_length) where
  open p use {Value, from_bytes}

  wrap_chunk-pos : (is_partial : Bool) (chunk : Bytes) → 0 < length (wrap_chunk p is_partial chunk)
  unfolding wrap_chunk
  wrap_chunk-pos is_partial chunk = pos _ (laws.is_empty-to_writer_binary _)
    where
      pos : (bytes : Bytes) → is_empty bytes ≡ false → 0 < length bytes
      pos [] h = absurd (cc)
      pos (b ∷ bytes) h = omega arith

  module _ (c : WebInspectorCodec) (partials : c.partials_supported ≡ true) where
    read_partial :
        (chunk rest : Bytes) (n a : ℕ)
        → length chunk ≤ max_rpc_len
        → wi_read_loop p eof
            (suc (suc n))
            (reader c at_header (build_packet (wrap_chunk p true chunk) ++ rest) a)
          ≡ wi_read_loop p eof n
              (reader (record c { partial_buffer = c.partial_buffer ++ chunk }) at_header rest a)
    unfolding decode_body accept_chunk decode_event
    read_partial chunk rest n a small =
        read_packet p eof c (wrap_chunk p true chunk) rest a n
          (reader (record c { partial_buffer = c.partial_buffer ++ chunk }) at_header rest a) none
          (wrap_chunk-pos true chunk) (fits true chunk small)
          (ground (arith, parse_plist-wrap p laws c true chunk partials))

    read_final :
        (chunk rest : Bytes) (n a : ℕ) (v : Value)
        → length chunk ≤ max_rpc_len
        → from_bytes (c.partial_buffer ++ chunk) ≡ ok v
        → wi_read_loop p eof
            (suc (suc n))
            (reader c at_header (build_packet (wrap_chunk p false chunk) ++ rest) (suc a))
          ≡ prepend p
              (some (recv_plist v))
              (wi_read_loop p eof n (reader (record c { partial_buffer = [] }) at_header rest a))
    unfolding decode_body decode_event
    read_final chunk rest n a v small parsed =
        read_packet p eof c (wrap_chunk p false chunk) rest (suc a) n
          (reader (record c { partial_buffer = [] }) at_header rest a) (some (recv_plist v))
          (wrap_chunk-pos false chunk) (fits false chunk small)
          (ground (
            arith,
            parse_plist-wrap p laws c false chunk partials,
            accept_chunk-final p laws c chunk v parsed,
          ))

  read_chunks :
      (fuel : ℕ) (rpc_bin : Bytes) (offset : ℕ) (c : WebInspectorCodec) (rest : Bytes) (n a : ℕ)
      (v : Value)
      → c.partials_supported ≡ true
      → length rpc_bin - offset < fuel
      → from_bytes (c.partial_buffer ++ drop offset rpc_bin) ≡ ok v
      → wi_read_loop p eof
          (rounds (encode_chunks p fuel rpc_bin offset) n)
          (reader c at_header (wire (encode_chunks p fuel rpc_bin offset) ++ rest) (suc a))
        ≡ prepend p
            (some (recv_plist v))
            (wi_read_loop p eof n (reader (record c { partial_buffer = [] }) at_header rest a))
  read_chunks zero rpc_bin offset c rest n a v partials enough parsed = absurd (omega arith)
  read_chunks (suc fuel) rpc_bin offset c rest n a v partials enough parsed =
      elim (Bool-cases (ltb max_rpc_len (length rpc_bin - offset))) [
        | inl more ↦
            let long : max_rpc_len < length rpc_bin - offset = ground arith in
            let left : Bytes = drop offset rpc_bin in
            let chunk : Bytes = take max_rpc_len left in
            let small : length chunk ≡ max_rpc_len =
              length-take max_rpc_len left (omega (arith, length-drop offset rpc_bin)) in
            let buffer : (c.partial_buffer ++ chunk) ++ drop (offset + max_rpc_len) rpc_bin
                ≡ c.partial_buffer ++ left =
              ap (λ b. (c.partial_buffer ++ chunk) ++ b)
                (sym (drop-drop max_rpc_len offset rpc_bin))
              ∙ append_assoc c.partial_buffer chunk (drop max_rpc_len left)
              ∙ ap (λ b. c.partial_buffer ++ b) (take-append-drop max_rpc_len left) in
            let packets : List Bytes = encode_chunks p fuel rpc_bin (offset + max_rpc_len) in
            rw (encode_chunks-partial p rpc_bin fuel offset long) (
              read_loop-packet p eof c (wrap_chunk p true chunk) packets rest n (suc a)
                (wrap_chunk-pos true chunk)
              ∙ read_partial c partials chunk (wire packets ++ rest) (rounds packets n) (suc a)
                  (omega arith)
              ∙ read_chunks fuel rpc_bin (offset + max_rpc_len)
                  (record c { partial_buffer = c.partial_buffer ++ chunk }) rest n a v partials
                  (omega arith) (ap from_bytes buffer ∙ parsed))
        | inr last ↦
            let small : length rpc_bin - offset ≤ max_rpc_len = ground arith in
            let chunk : Bytes = drop offset rpc_bin in
            rw (encode_chunks-final p rpc_bin fuel offset small) (
              read_loop-packet p eof c (wrap_chunk p false chunk) [] rest n (suc a)
                (wrap_chunk-pos false chunk)
              ∙ read_final c partials chunk rest n a v (omega (arith, length-drop offset rpc_bin))
                  parsed)
      ]

  -- A message that is sent in pieces, and read by a codec with an empty buffer, is one event, with
  -- the message's plist; then the loop goes on with the bytes behind it, the buffer empty again.
  -- For any reader channel that takes one more event, where no wrapped piece exceeds the limit.
  pub read_loop-encode_partial :
      (sender receiver : WebInspectorCodec) (rpc_bin rest : Bytes) (n a : ℕ) (v : Value)
      → sender.partials_supported ≡ true
      → receiver.partials_supported ≡ true
      → receiver.partial_buffer ≡ []
      → from_bytes rpc_bin ≡ ok v
      → wi_read_loop p eof
          (rounds (encode_plist p sender rpc_bin) n)
          (reader receiver at_header (wire (encode_plist p sender rpc_bin) ++ rest) (suc a))
        ≡ prepend p (some (recv_plist v)) (wi_read_loop p eof n (reader receiver at_header rest a))
  read_loop-encode_partial sender receiver rpc_bin rest n a v s r empty parsed =
      let same : record receiver { partial_buffer = [] } ≡ receiver =
        λ i. record receiver { partial_buffer = sym empty i } in
      rw (encode_plist-partial p sender rpc_bin s) (
        read_chunks (suc (length rpc_bin)) rpc_bin 0 receiver rest n a v r (omega arith)
          (ap (λ b. from_bytes (b ++ rpc_bin)) empty ∙ parsed)
        ∙ ap
            (λ c.
              prepend p (some (recv_plist v)) (wi_read_loop p eof n (reader c at_header rest a)))
            same)

module _ (p : Plist) (eof : String) where
  open p use {Value, from_bytes}

  read_whole :
      (c : WebInspectorCodec) (rpc_bin rest : Bytes) (n a : ℕ) (v : Value)
      → c.partials_supported ≡ false
      → 0 < length rpc_bin
      → length rpc_bin ≤ max_body_length
      → from_bytes rpc_bin ≡ ok v
      → wi_read_loop p eof (suc (suc n)) (reader c at_header (build_packet rpc_bin ++ rest) (suc a))
        ≡ prepend p (some (recv_plist v)) (wi_read_loop p eof n (reader c at_header rest a))
  unfolding decode_body parse_plist decode_event
  read_whole c rpc_bin rest n a v whole pos fits parsed =
      read_packet p eof c rpc_bin rest (suc a) n (reader c at_header rest a) (some (recv_plist v))
        pos fits (ground arith)

  -- A message that is sent in one packet, with the empty packet behind it where the sender is no
  -- simulator, is one event with the message's plist, and the loop goes on with the bytes behind
  -- it, if the message is not empty and does not exceed the limit and the channel takes one more
  -- event.
  pub read_loop-encode_whole :
      (sender receiver : WebInspectorCodec) (rpc_bin rest : Bytes) (n a : ℕ) (v : Value)
      → sender.partials_supported ≡ false
      → receiver.partials_supported ≡ false
      → 0 < length rpc_bin
      → length rpc_bin ≤ max_body_length
      → from_bytes rpc_bin ≡ ok v
      → wi_read_loop p eof
          (rounds (encode_plist p sender rpc_bin) n)
          (reader receiver at_header (wire (encode_plist p sender rpc_bin) ++ rest) (suc a))
        ≡ prepend p (some (recv_plist v)) (wi_read_loop p eof n (reader receiver at_header rest a))
  unfolding encode_plist
  read_loop-encode_whole sender receiver rpc_bin rest n a v s r pos fits parsed =
      let message = read_whole receiver rpc_bin in
      elim (Bool-cases sender.is_sim) [
        | inl sim ↦
            rw (s, sim)
              (read_loop-packet p eof receiver rpc_bin [] rest n (suc a) pos
                ∙ message rest n a v r pos fits parsed)
        | inr real ↦
            rw (s, real)
              (read_loop-packet p eof receiver rpc_bin (build_packet [] ∷ []) rest n (suc a) pos
                ∙ message (wire (build_packet [] ∷ []) ++ rest) (rounds (build_packet [] ∷ []) n) a
                    v r pos fits parsed
                ∙ ap (prepend p (some (recv_plist v))) (read_loop-empty p eof receiver rest n a))
      ]
