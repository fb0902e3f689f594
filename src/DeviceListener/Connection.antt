-- ===== src/DeviceListener/Connection.antt =====
-- src/device_listener.rs: one connection to usbmuxd, run_device_listener, and the task that connects
-- again, spawn_device_listener. What the calls of the system give is an argument.
use Prim.Native.String.{◌++◌ as concat}
use ios_webkit_debug_proxy_r.Base.{
  ℕ, zero, suc, ◌+◌, ◌/◌, ◌%◌, ◌^◌, String, Bool, Option, none, some, List, [], ◌∷◌, ◌++◌, Bytes,
  ascii, length, if◌then◌else◌,
}
use ios_webkit_debug_proxy_r.Base.Decimal.{to_string}
use ios_webkit_debug_proxy_r.Error.{Error, usbmuxd}
use ios_webkit_debug_proxy_r.Plist.{Plist}
use ios_webkit_debug_proxy_r.DeviceListener.{
  DeviceEvent, DeviceListenerParser, new_parser, type_plist, on_recv,
}

abbrev libusbmux_version : ℕ
libusbmux_version = 3

unfoldable pub listen_xml : Bytes
listen_xml =
    ascii "<?xml version=\"1.0\" encoding=\"UTF-8\"?>\n"
    ++ ascii "<!DOCTYPE plist PUBLIC \"-//Apple//DTD PLIST 1.0//EN\" \"http://www.apple.com/DTDs/"
    ++ ascii "PropertyList-1.0.dtd\">\n"
    ++ ascii "<plist version=\"1.0\">\n"
    ++ ascii "<dict>\n"
    ++ ascii "\t<key>ClientVersionString</key>\n"
    ++ ascii "\t<string>device_listener</string>\n"
    ++ ascii "\t<key>MessageType</key>\n"
    ++ ascii "\t<string>Listen</string>\n"
    ++ ascii "\t<key>ProgName</key>\n"
    ++ ascii "\t<string>libusbmuxd</string>\n"
    ++ ascii "\t<key>kLibUSBMuxVersion</key>\n"
    ++ ascii "\t<integer>"
    ++ (ascii (to_string libusbmux_version))
    ++ ascii "</integer>\n"
    ++ ascii "</dict>\n"
    ++ ascii "</plist>"

-- `write_u32::<LittleEndian>`
abbrev pub write_u32 : ℕ → Bytes
write_u32 n = n % 256 ∷ n / 2 ^ 8 % 256 ∷ n / 2 ^ 16 % 256 ∷ n / 2 ^ 24 % 256 ∷ []

unfoldable pub create_listen_packet : Bytes
create_listen_packet =
    write_u32 (16 + length listen_xml)
    ++ write_u32 1
    ++ write_u32 type_plist
    ++ write_u32 1
    ++ listen_xml

-- What the `select!` takes.
pub data Polled : Type 0 where
  read : Bytes → Polled
  read_end : Polled
  read_error : String → Polled
  cancelled : Polled

-- `finished` and `failed` are the two results. A connection still waits where the list of what comes
-- in ends, and nothing follows where the parser panics or does not return.
pub data Ended : Type 0 where
  finished : Ended
  failed : Error → Ended
  waiting : Ended
  stuck : Ended

-- The events that are sent, and how many more the receiver takes before it is dropped.
pub record Ran : Type 0 where
  pub sent : List DeviceEvent
  pub ended : Ended
  pub room : ℕ

-- The loop over the events of a read: those that the receiver takes, and what it then takes further;
-- `none` if a send fails.
unfoldable pub send_events : ℕ → List DeviceEvent → List DeviceEvent × Option ℕ
send_events room [] = ([], some room)
send_events zero (event ∷ events) = ([], none)
send_events (suc room) (event ∷ events) =
    let rest : List DeviceEvent × Option ℕ = send_events room events in (event ∷ rest.0, rest.1)

abbrev pub with_sent : List DeviceEvent → Ran → Ran
with_sent sent r = record r { sent = sent ++ r.sent }

-- What connecting and writing the request give, an error by its text, and what comes in then.
pub record Connection : Type 0 where
  pub connect_error : Option String
  pub write_error : Option String
  pub polled : List Polled

-- A round of the task's loop: if it starts cancelled, its connection, and if the wait is cancelled.
pub record Round : Type 0 where
  pub is_cancelled : Bool
  pub connection : Connection
  pub cancelled_in_wait : Bool

module _ (p : Plist) (from_utf8_lossy : Bytes → Bytes) where
  -- The loop of a connection.
  unfoldable pub listen : DeviceListenerParser → ℕ → List Polled → Ran
  listen d room [] = record { sent = []; ended = waiting; room = room }
  listen d room (read bytes ∷ rest) = elim (on_recv p from_utf8_lossy d bytes) [
    | none ↦ record { sent = []; ended = stuck; room = room }
    | some (d', events) ↦
        let sent : List DeviceEvent × Option ℕ = send_events room events in
        elim sent.1 [
          | none ↦ record { sent = sent.0; ended = finished; room = 0 }
          | some left ↦ with_sent sent.0 (listen d' left rest)
        ]
  ]
  listen d room (read_end ∷ rest) = record {
    sent = [];
    ended = failed (usbmuxd "usbmuxd connection closed");
    room = room;
  }
  listen d room (read_error e ∷ rest) = record {
    sent = [];
    ended = failed (usbmuxd (concat "Failed to read usbmuxd data: " e));
    room = room;
  }
  listen d room (cancelled ∷ rest) = record { sent = []; ended = finished; room = room }

  unfoldable pub run_device_listener : ℕ → Connection → Ran
  run_device_listener room c = elim c.connect_error [
    | some e ↦ record {
      sent = [];
      ended = failed (usbmuxd (concat "Failed to connect to usbmuxd: " e));
      room = room;
    }
    | none ↦ elim c.write_error [
      | some e ↦ record {
        sent = [];
        ended = failed (usbmuxd (concat "Failed to send Listen request: " e));
        room = room;
      }
      | none ↦ listen new_parser room c.polled
    ]
  ]

  -- The events that the task sends, by connection.
  unfoldable pub spawn_device_listener : ℕ → List Round → List (List DeviceEvent)
  spawn_device_listener room [] = []
  spawn_device_listener room (round ∷ rounds) =
      let ran : Ran = run_device_listener room round.connection in
      let later : List (List DeviceEvent) = spawn_device_listener ran.room rounds in
      if round.is_cancelled then [] else elim ran.ended [
        | failed e ↦ if round.cancelled_in_wait then ran.sent ∷ [] else ran.sent ∷ later
        | _ ↦ ran.sent ∷ []
      ]
