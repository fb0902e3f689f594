-- ===== src/WebInspector/Pieces.antt =====
-- The pieces that encode_plist cuts a message into.
use ios_webkit_debug_proxy_r.Base.{
  ℕ, zero, suc, ◌+◌, ◌-◌, ◌≤◌, ◌<◌, ◌≡◌, refl, sym, ap, ◌∙◌, inl, inr, true, false, List, [], ◌∷◌,
  ◌++◌, append_assoc, arith, ltb, Bytes, length, take, drop, All, take-append-drop, length-take,
  length-drop, drop-drop, Bool-cases, nat_eq,
}
use ios_webkit_debug_proxy_r.Plist.{Plist}
use ios_webkit_debug_proxy_r.WebInspector.{
  WebInspectorCodec, max_rpc_len, build_packet, wrap_chunk, encode_chunks, encode_plist,
}
use ios_webkit_debug_proxy_r.WebInspector.Reader.Chunks.{encode_chunks-partial, encode_chunks-final}

abbrev pub joined : List Bytes → Bytes
joined [] = []
joined (piece ∷ pieces) = piece ++ joined pieces

module _ (p : Plist) where
  -- The packets of the pieces that are not the last.
  abbrev pub packets : List Bytes → List Bytes
  packets [] = []
  packets (piece ∷ pieces) = build_packet (wrap_chunk p true piece) ∷ packets pieces

  -- The packets are those of pieces of the message: all but the last have the full size, the last is
  -- no larger and is marked as the last, and together they are the message.
  pub record Pieces (message : Bytes) (sent : List Bytes) : Type 0 where
    pub pieces : List Bytes
    pub last : Bytes
    pub full : All (λ piece. length piece ≡ max_rpc_len) pieces
    pub fits : length last ≤ max_rpc_len
    pub whole : joined pieces ++ last ≡ message
    pub packed : sent ≡ packets pieces ++ build_packet (wrap_chunk p false last) ∷ []

  encode_chunks-Pieces :
      (fuel : ℕ) (rpc_bin : Bytes) (offset : ℕ)
      → length rpc_bin - offset < fuel
      → Pieces (drop offset rpc_bin) (encode_chunks p fuel rpc_bin offset)
  encode_chunks-Pieces zero rpc_bin offset more = absurd (omega arith)
  encode_chunks-Pieces (suc fuel) rpc_bin offset more =
      elim (Bool-cases (ltb max_rpc_len (length rpc_bin - offset))) [
        | inl large ↦
            let rest : Bytes = drop offset rpc_bin in
            let size : max_rpc_len < length rpc_bin - offset = ground (arith, large) in
            let v =
              encode_chunks-Pieces fuel rpc_bin (offset + max_rpc_len) (omega (arith, size)) in
            record {
              pieces = take max_rpc_len rest ∷ v.pieces;
              last = v.last;
              full = (
                length-take max_rpc_len rest (omega (arith, size, length-drop offset rpc_bin)),
                v.full,
              );
              fits = v.fits;
              whole =
                  append_assoc (take max_rpc_len rest) (joined v.pieces) v.last
                  ∙ (ap (λ t. take max_rpc_len rest ++ t)
                        (v.whole ∙ sym (drop-drop max_rpc_len offset rpc_bin))
                      ∙ take-append-drop max_rpc_len rest);
              packed =
                  encode_chunks-partial p rpc_bin fuel offset size
                  ∙ ap (◌∷◌ (build_packet (wrap_chunk p true (take max_rpc_len rest)))) v.packed;
            }
        | inr small ↦
            let size : length rpc_bin - offset ≤ max_rpc_len = ground (arith, small) in
            record {
              pieces = [];
              last = drop offset rpc_bin;
              full = tt;
              fits = omega (arith, size, length-drop offset rpc_bin);
              whole = refl;
              packed = encode_chunks-final p rpc_bin fuel offset size;
            }
      ]

  -- A message to a device that takes pieces is cut into pieces that together are the message: all
  -- but the last have the full size, the last is no larger and is the only one marked as the last.
  pub encode_plist-Pieces :
      (c : WebInspectorCodec) (rpc_bin : Bytes)
      → c.partials_supported ≡ true
      → Pieces rpc_bin (encode_plist p c rpc_bin)
  unfolding encode_plist
  encode_plist-Pieces c rpc_bin partials =
      rw (partials, encode_plist)
        (encode_chunks-Pieces (suc (length rpc_bin)) rpc_bin 0 (omega arith))
