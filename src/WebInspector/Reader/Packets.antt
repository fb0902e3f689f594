-- ===== src/WebInspector/Reader/Packets.antt =====
-- One packet in the read loop, and several on the wire.
use ios_webkit_debug_proxy_r.Base.{
  ℕ, suc, ◌≤◌, ◌<◌, String, ◌≡◌, refl, sym, ap, ◌∙◌, true, Option, none, some, List, [], ◌∷◌, ◌++◌,
  append_assoc, arith, leb, Bytes, length, length-append, take-append, drop-append, ◌==◌, nat_eq,
  if◌then◌else◌,
}
use mathlib.Core.Path.{ap₂}
use ios_webkit_debug_proxy_r.Plist.{Plist}
use ios_webkit_debug_proxy_r.WebInspector.{
  WebInspectorCodec, WiEvent, max_body_length, build_packet, decode_body,
}
use ios_webkit_debug_proxy_r.WebInspector.Header.{
  header, parse_length-header, build_packet-append, length-header,
}
use ios_webkit_debug_proxy_r.WebInspector.Reader.{
  Reader, Phase, at_header, at_body, continues, read_exact, decode_event, poll, prepend,
  wi_read_loop,
}

-- The bytes of a sequence of packets on the wire.
abbrev pub wire : List Bytes → Bytes
wire [] = []
wire (packet ∷ packets) = packet ++ wire packets

read_exact-append :
    (n : ℕ) (xs rest : Bytes) → n ≡ length xs → read_exact n (xs ++ rest) ≡ some (xs, rest)
unfolding read_exact
read_exact-append n xs rest h =
    let enough : leb n (length (xs ++ rest)) ≡ true = ground (arith, length-append xs rest) in
    rw (enough, take-append n xs rest h, drop-append n xs rest h)

abbrev pub reader : WebInspectorCodec → Phase → Bytes → ℕ → Reader
reader c phase stream accepts = record {
  codec = c;
  phase = phase;
  stream = stream;
  accepts = accepts;
}

read_exact-packet :
    (body rest : Bytes)
    → read_exact 4 (build_packet body ++ rest) ≡ some (header body, body ++ rest)
read_exact-packet body rest =
    ap (read_exact 4) (ap (λ bytes. bytes ++ rest) (build_packet-append body))
    ∙ (ap (read_exact 4) (append_assoc (header body) body rest)
        ∙ read_exact-append 4 (header body) (body ++ rest) (sym (length-header body)))

module _ (p : Plist) (eof : String) (c : WebInspectorCodec) (body rest : Bytes) (a : ℕ) where
  poll-header :
      0 < length body
      → length body ≤ max_body_length
      → poll p eof (reader c at_header (build_packet body ++ rest) a)
        ≡ continues (reader c (at_body (length body)) (body ++ rest) a) none
  unfolding poll
  poll-header pos fits = ground (arith, read_exact-packet body rest, parse_length-header body fits)

  poll-body :
      poll p eof (reader c (at_body (length body)) (body ++ rest) a)
      ≡ decode_event p (reader c at_header rest a) (decode_body p c body)
  unfolding poll
  poll-body = ground (arith, read_exact-append (length body) body rest refl)

  poll-empty :
      poll p eof (reader c at_header (build_packet [] ++ rest) a)
      ≡ continues (reader c at_header rest a) none
  unfolding poll
  poll-empty = ground (arith, read_exact-packet [] rest, parse_length-header [] (omega arith))

  -- A packet with a body takes two rounds, and what they lead to is up to `decode_body`.
  pub read_packet :
      (n : ℕ) (r : Reader) (event : Option (WiEvent p))
      → 0 < length body
      → length body ≤ max_body_length
      → decode_event p (reader c at_header rest a) (decode_body p c body) ≡ continues r event
      → wi_read_loop p eof (suc (suc n)) (reader c at_header (build_packet body ++ rest) a)
        ≡ prepend p event (wi_read_loop p eof n r)
  unfolding wi_read_loop
  read_packet n r event pos fits decoded = ground (arith, poll-header pos fits, poll-body)

-- The `select!`s that a sequence of packets takes: one for each header and each body.
abbrev pub rounds : List Bytes → ℕ → ℕ
rounds [] n = n
rounds (packet ∷ packets) n =
    let rest : ℕ = rounds packets n in if length packet == 4 then suc rest else suc (suc rest)

pub rounds-packet :
    (body : Bytes) (packets : List Bytes) (n : ℕ)
    → 0 < length body
    → rounds (build_packet body ∷ packets) n ≡ suc (suc (rounds packets n))
unfolding build_packet
rounds-packet body packets n pos = ground arith

module _ (p : Plist) (eof : String) where
  -- The first of several packets on the wire.
  pub read_loop-packet :
      (c : WebInspectorCodec) (body : Bytes) (packets : List Bytes) (rest : Bytes) (n a : ℕ)
      → 0 < length body
      → wi_read_loop p eof
          (rounds (build_packet body ∷ packets) n)
          (reader c at_header (wire (build_packet body ∷ packets) ++ rest) a)
        ≡ wi_read_loop p eof
            (suc (suc (rounds packets n)))
            (reader c at_header (build_packet body ++ (wire packets ++ rest)) a)
  read_loop-packet c body packets rest n a pos =
      ap₂ (λ k stream. wi_read_loop p eof k (reader c at_header stream a))
        (rounds-packet body packets n pos) (append_assoc (build_packet body) (wire packets) rest)

  read_empty :
      (c : WebInspectorCodec) (rest : Bytes) (n a : ℕ)
      → wi_read_loop p eof (suc n) (reader c at_header (build_packet [] ++ rest) a)
        ≡ wi_read_loop p eof n (reader c at_header rest a)
  unfolding wi_read_loop
  read_empty c rest n a = ground (arith, poll-empty p eof c [] rest a)

  -- An empty packet is skipped.
  pub read_loop-empty :
      (c : WebInspectorCodec) (rest : Bytes) (n a : ℕ)
      → wi_read_loop p eof
          (rounds (build_packet [] ∷ []) n)
          (reader c at_header (wire (build_packet [] ∷ []) ++ rest) a)
        ≡ wi_read_loop p eof n (reader c at_header rest a)
  unfolding build_packet
  read_loop-empty c rest n a = read_empty c rest n a
