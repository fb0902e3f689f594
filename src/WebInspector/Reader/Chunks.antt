-- ===== src/WebInspector/Reader/Chunks.antt =====
-- The wrapper of a piece, and the two cases of the loop of `encode_plist`.
use ios_webkit_debug_proxy_r.Base.{
  ℕ, suc, ◌+◌, ◌-◌, ◌≤◌, ◌<◌, ◌≡◌, Bool, true, false, some, [], ◌∷◌, ◌++◌, arith, ltb, Bytes,
  length, take, drop, take_all, length-drop, nat_eq,
}
use ios_webkit_debug_proxy_r.Error.{ok}
use ios_webkit_debug_proxy_r.Plist.{Plist, Laws}
use ios_webkit_debug_proxy_r.WebInspector.{
  WebInspectorCodec, max_rpc_len, build_packet, wrap_chunk, unwrap_chunk, accept_chunk,
  encode_chunks, encode_plist, parse_plist,
}

module _ (p : Plist) (laws : Laws p) where
  open p use {Value, from_bytes}

  pub parse_plist-wrap :
      (c : WebInspectorCodec) (is_partial : Bool) (chunk : Bytes)
      → c.partials_supported ≡ true
      → parse_plist p c (wrap_chunk p is_partial chunk) ≡ accept_chunk p c chunk is_partial
  unfolding parse_plist wrap_chunk unwrap_chunk
  parse_plist-wrap c true chunk h =
      simp
        (
          h, laws.from_bytes-to_writer_binary, laws.as_dictionary-dictionary, laws.get-insert,
          laws.get-new,
        )
        (rw (laws.as_data-of_data chunk))
  parse_plist-wrap c false chunk h =
      simp (h, laws.from_bytes-to_writer_binary, laws.as_dictionary-dictionary, laws.get-insert)
        (rw (laws.as_data-of_data chunk))

  pub accept_chunk-final :
      (c : WebInspectorCodec) (chunk : Bytes) (v : Value)
      → from_bytes (c.partial_buffer ++ chunk) ≡ ok v
      → accept_chunk p c chunk false ≡ (record c { partial_buffer = [] }, ok (some v))
  unfolding accept_chunk
  accept_chunk-final c chunk v h = final c.partial_buffer h
    where
      final :
          (buffer : Bytes)
          → from_bytes (buffer ++ chunk) ≡ ok v
          → accept_chunk p (record c { partial_buffer = buffer }) chunk false
            ≡ (record c { partial_buffer = [] }, ok (some v))
      final [] e = rw e
      final (b ∷ buffer) e = rw e

module _ (p : Plist) (rpc_bin : Bytes) (fuel offset : ℕ) where
  pub encode_chunks-partial :
      max_rpc_len < length rpc_bin - offset
      → encode_chunks p (suc fuel) rpc_bin offset
        ≡ build_packet (wrap_chunk p true (take max_rpc_len (drop offset rpc_bin)))
          ∷ encode_chunks p fuel rpc_bin (offset + max_rpc_len)
  unfolding encode_chunks
  encode_chunks-partial h =
      let more : ltb max_rpc_len (length rpc_bin - offset) ≡ true = ground arith in
      let size : offset + max_rpc_len - offset ≡ max_rpc_len = omega arith in rw (more, size)

  pub encode_chunks-final :
      length rpc_bin - offset ≤ max_rpc_len
      → encode_chunks p (suc fuel) rpc_bin offset
        ≡ build_packet (wrap_chunk p false (drop offset rpc_bin)) ∷ []
  unfolding encode_chunks
  encode_chunks-final h =
      let last : ltb max_rpc_len (length rpc_bin - offset) ≡ false = ground arith in
      rw last (
        rw (
          take_all (length rpc_bin - offset) (drop offset rpc_bin)
            (omega (arith, length-drop offset rpc_bin))))

module _ (p : Plist) where
  pub encode_plist-partial :
      (sender : WebInspectorCodec) (rpc_bin : Bytes)
      → sender.partials_supported ≡ true
      → encode_plist p sender rpc_bin ≡ encode_chunks p (suc (length rpc_bin)) rpc_bin 0
  unfolding encode_plist
  encode_plist-partial sender rpc_bin s = rw s
