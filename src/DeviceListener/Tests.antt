-- ===== src/DeviceListener/Tests.antt =====
-- A device that usbmuxd reports, in two reads.
use mathlib.Core.Option
use ios_webkit_debug_proxy_r.Base.{
  ◌+◌, ◌++◌, ◌≡◌, refl, false, All, none, some, [], ◌∷◌, arith, Bytes, length, take, drop,
}
use ios_webkit_debug_proxy_r.Base.Dict.{HashMap}
use ios_webkit_debug_proxy_r.Base.Decimal.{to_string}
use ios_webkit_debug_proxy_r.Base.Dict
use ios_webkit_debug_proxy_r.Plist.Sample.{
  Node, text, number, dict, end, entry, sample, lookup, decode,
}
use ios_webkit_debug_proxy_r.Plist.Sample.Chars.{parse_text}
use ios_webkit_debug_proxy_r.DeviceListener.{
  attached, DeviceListenerParser, new_parser, read_u32, parse_packet, parse_plist_message,
  parse_message, parse_attached, parse_detached, detached, standard_id, str_len, utf8_size,
  load_length, on_recv, drain, receive,
}
use ios_webkit_debug_proxy_r.DeviceListener.Packets.{IsPacket, parse_all}
use ios_webkit_debug_proxy_r.DeviceListener.Chunks.{Received, receive-chunks}
use ios_webkit_debug_proxy_r.DeviceListener.Connection.{
  read, read_end, Round, listen, run_device_listener, spawn_device_listener, send_events,
  create_listen_packet, listen_xml,
}
use ios_webkit_debug_proxy_r.DeviceListener.Sound.{IsSound}
use ios_webkit_debug_proxy_r.DeviceListener.Reports.{spawn_device_listener-IsSound}
use ios_webkit_debug_proxy_r.DeviceListener.Stalls.{drain-zero}

abbrev lossy : Bytes → Bytes
lossy bytes = bytes

abbrev message : Node
message = dict (
    entry "MessageType" (text "Attached") (
      entry "Properties" (dict (entry "DeviceID" (number 3) (entry "SerialNumber" (text "A1") end)))
        end))

abbrev body : Bytes
body = sample.to_writer_binary message

abbrev packet : Bytes
packet = (16 + length body) ∷ 0 ∷ 0 ∷ 0 ∷ 1 ∷ 0 ∷ 0 ∷ 0 ∷ 8 ∷ 0 ∷ 0 ∷ 0 ∷ 1 ∷ 0 ∷ 0 ∷ 0 ∷ body

packet-IsPacket : IsPacket packet
unfolding read_u32
packet-IsPacket = (omega arith, refl)

parse_all-packet :
    parse_all sample lossy [] (packet ∷ []) ≡ some ((3, "A1") ∷ [], attached "A1" 3 ∷ [])
unfolding parse_all parse_packet parse_plist_message parse_message parse_attached standard_id
    str_len utf8_size read_u32 decode lookup Option.bind Dict.insert parse_text
parse_all-packet = refl

receive-chunks_example :
    Received sample lossy
      (receive sample lossy new_parser (take 3 packet ∷ drop 3 packet ∷ []))
      ((3, "A1") ∷ [])
      (attached "A1" 3 ∷ [])
receive-chunks_example =
    receive-chunks sample lossy new_parser (packet ∷ []) (take 3 packet ∷ drop 3 packet ∷ [])
      ((3, "A1") ∷ []) (attached "A1" 3 ∷ []) refl refl (packet-IsPacket, tt) refl parse_all-packet

abbrev zero_header : DeviceListenerParser
zero_header = record new_parser { buffer = 0 ∷ 0 ∷ 0 ∷ 0 ∷ [] }

read-zero : read_u32 zero_header.buffer ≡ 0
unfolding read_u32
read-zero = refl

drain-zero_example : drain sample lossy 100 zero_header ≡ none
drain-zero_example = drain-zero sample lossy 100 zero_header refl (omega arith) read-zero

-- The device is attached on the first connection and gone on the second.
abbrev gone_body : Bytes
gone_body =
    sample.to_writer_binary
      (dict (entry "MessageType" (text "Detached") (entry "DeviceID" (number 3) end)))

abbrev gone_packet : Bytes
gone_packet =
    (16 + length gone_body) ∷ 0 ∷ 0 ∷ 0 ∷ 1 ∷ 0 ∷ 0 ∷ 0 ∷ 8 ∷ 0 ∷ 0 ∷ 0 ∷ 1 ∷ 0 ∷ 0 ∷ 0 ∷ gone_body

abbrev round_of : Bytes → Round
round_of bytes = record {
  is_cancelled = false;
  connection = record {
    connect_error = none;
    write_error = none;
    polled = read bytes ∷ read_end ∷ [];
  };
  cancelled_in_wait = false;
}

-- On one connection the detachment is reported; on the next connection it is not.
one_connection :
    spawn_device_listener sample lossy 9 (round_of (packet ++ gone_packet) ∷ [])
    ≡ (attached "A1" 3 ∷ detached "A1" 3 ∷ []) ∷ []
unfolding spawn_device_listener run_device_listener listen send_events on_recv load_length
    parse_packet parse_plist_message parse_message parse_attached parse_detached standard_id str_len
    utf8_size read_u32 decode lookup Option.bind Dict.insert Dict.get Dict.remove parse_text drain
one_connection = refl

two_connections :
    spawn_device_listener sample lossy 9 (round_of packet ∷ round_of gone_packet ∷ [])
    ≡ (attached "A1" 3 ∷ []) ∷ [] ∷ []
unfolding spawn_device_listener run_device_listener listen send_events on_recv load_length
    parse_packet parse_plist_message parse_message parse_attached parse_detached standard_id str_len
    utf8_size read_u32 decode lookup Option.bind Dict.insert Dict.get Dict.remove parse_text drain
two_connections = refl

spawn_device_listener-IsSound_example :
    All
      (IsSound [])
      (spawn_device_listener sample lossy 9 (round_of packet ∷ round_of gone_packet ∷ []))
spawn_device_listener-IsSound_example =
    spawn_device_listener-IsSound sample lossy 9 (round_of packet ∷ round_of gone_packet ∷ [])

-- The request is a packet.
create_listen_packet-IsPacket : IsPacket create_listen_packet
unfolding create_listen_packet listen_xml read_u32 to_string
create_listen_packet-IsPacket = (ground arith, refl)
