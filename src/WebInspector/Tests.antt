-- ===== src/WebInspector/Tests.antt =====
-- Runs of the codec on concrete bytes.
use ios_webkit_debug_proxy_r.Base.{
  ◌≤◌, ◌≡◌, refl, Bool, true, false, some, [], ◌∷◌, ◌++◌, arith, Bytes, length,
}
use ios_webkit_debug_proxy_r.Error.{ok}
use ios_webkit_debug_proxy_r.Plist.Sample.{number, sample, sample-Laws, update, decode}
use ios_webkit_debug_proxy_r.Plist.Sample.Chars.{length-print_blob}
use ios_webkit_debug_proxy_r.WebInspector.{
  WebInspectorCodec, recv_plist, new_codec, max_rpc_len, max_body_length, parse_length, wrap_chunk,
  encode_plist, encode_chunks,
}
use ios_webkit_debug_proxy_r.WebInspector.Writer.{written, write_failed, wi_write_loop}
use ios_webkit_debug_proxy_r.WebInspector.Writer.Sent.{put_out, put_out-read, wi_write_loop-prefix}
use ios_webkit_debug_proxy_r.WebInspector.Pieces.{Pieces, encode_plist-Pieces}
use ios_webkit_debug_proxy_r.WebInspector.Header.{header, parse_length-header}
use ios_webkit_debug_proxy_r.WebInspector.Reader.{at_header, prepend, wi_read_loop}
use ios_webkit_debug_proxy_r.WebInspector.Reader.Packets.{wire, reader, rounds}
use ios_webkit_debug_proxy_r.WebInspector.Reader.RoundTrip.{
  read_loop-encode_partial, read_loop-encode_whole,
}

wrap_chunk-fits :
    (is_partial : Bool) (chunk : Bytes)
    → length chunk ≤ max_rpc_len
    → length (wrap_chunk sample is_partial chunk) ≤ max_body_length
unfolding wrap_chunk update
wrap_chunk-fits true chunk small = omega (arith, length-print_blob chunk (0 ∷ []))
wrap_chunk-fits false chunk small = omega (arith, length-print_blob chunk (0 ∷ []))

abbrev simulator_codec : WebInspectorCodec
simulator_codec = new_codec true false

abbrev device_codec : WebInspectorCodec
device_codec = new_codec false false

abbrev old_device_codec : WebInspectorCodec
old_device_codec = new_codec false true

-- The number 5 as the sample writes it.
abbrev five : Bytes
five = 1 ∷ 2 ∷ 5 ∷ []

decode-five : decode five ≡ ok (number 5)
unfolding decode
decode-five = refl

short : length (encode_plist sample old_device_codec five) ≤ 64
unfolding encode_plist encode_chunks
short = omega arith

parse_length-header_example : parse_length (header five) ≡ ok 3
parse_length-header_example = parse_length-header five (omega arith)

read_loop-encode_partial_example :
    wi_read_loop sample "early eof" (rounds (encode_plist sample old_device_codec five) 1) (
      reader old_device_codec at_header
        (wire (encode_plist sample old_device_codec five) ++ 0 ∷ [])
        2)
    ≡ prepend sample
        (some (recv_plist (number 5)))
        (wi_read_loop sample "early eof" 1 (reader old_device_codec at_header (0 ∷ []) 1))
read_loop-encode_partial_example =
    read_loop-encode_partial sample sample-Laws "early eof" wrap_chunk-fits old_device_codec
      old_device_codec five (0 ∷ []) 1 1 (number 5) refl refl refl decode-five

read_loop-encode_whole_example :
    wi_read_loop sample "early eof"
      (rounds (encode_plist sample device_codec five) 1)
      (reader device_codec at_header (wire (encode_plist sample device_codec five) ++ 0 ∷ []) 2)
    ≡ prepend sample
        (some (recv_plist (number 5)))
        (wi_read_loop sample "early eof" 1 (reader device_codec at_header (0 ∷ []) 1))
read_loop-encode_whole_example =
    read_loop-encode_whole sample "early eof" device_codec device_codec five (0 ∷ []) 1 1 (number 5)
      refl refl (omega arith) (omega arith) decode-five

put_out-read_example :
    wi_read_loop sample "early eof"
      (rounds (encode_plist sample old_device_codec five) 1)
      (reader old_device_codec at_header ((put_out sample 64 old_device_codec five).0 ++ 0 ∷ []) 2)
    ≡ prepend sample
        (some (recv_plist (number 5)))
        (wi_read_loop sample "early eof" 1 (reader old_device_codec at_header (0 ∷ []) 1))
put_out-read_example =
    put_out-read sample sample-Laws "early eof" wrap_chunk-fits old_device_codec five (0 ∷ []) 64 1
      1 (number 5) short refl refl decode-five

wi_write_loop-prefix_example :
    (rest : Bytes) × (wire (five ∷ five ∷ [])
      ≡ (wi_write_loop ((five, written) ∷ (five, write_failed 2 "closed") ∷ [])).0 ++ rest)
wi_write_loop-prefix_example =
    wi_write_loop-prefix ((five, written) ∷ (five, write_failed 2 "closed") ∷ [])

encode_plist-Pieces_example : Pieces sample five (encode_plist sample old_device_codec five)
encode_plist-Pieces_example = encode_plist-Pieces sample old_device_codec five refl
