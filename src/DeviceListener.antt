-- ===== src/DeviceListener.antt =====
-- src/device_listener.rs: the parser of the packets from usbmuxd and the request that starts the
-- listening. A call that panics or does not return gives `none`.
pub mod Packets
pub mod Rounds
pub mod Chunks
pub mod Stalls
pub mod Sound
pub mod Connection
pub mod Reports
pub mod Tests
use mathlib.Core.Option
use Prim.Native.String.{◌++◌ as concat}
use Prim.Native.Char.{Char, code}
use ios_webkit_debug_proxy_r.Base.{
  ℕ, zero, suc, ◌+◌, ◌-◌, ◌*◌, ◌/◌, ◌%◌, ◌^◌, String, Bool, true, false, not, ◌&&◌, ◌||◌, Option,
  none, some, List, [], ◌∷◌, ◌++◌, ltb, leb, ◌==◌, nat_eq, string_eq, if◌then◌else◌, Bytes, length,
  take, drop,
}
use ios_webkit_debug_proxy_r.Base.Decimal.{to_string}
use ios_webkit_debug_proxy_r.Base.Dict.{HashMap}
use ios_webkit_debug_proxy_r.Base.Dict
use ios_webkit_debug_proxy_r.Error.{Error, plist, usbmuxd, Result, ok, err, ◌>>=◌, ok_or, map_err}
use ios_webkit_debug_proxy_r.Plist.{Plist}

abbrev pub type_plist : ℕ
type_plist = 8

-- The device number is a 32-bit pattern.
pub data DeviceEvent : Type 0 where
  attached : String → ℕ → DeviceEvent
  detached : String → ℕ → DeviceEvent

pub record DeviceListenerParser : Type 0 where
  pub device_num_to_id : HashMap ℕ String
  pub buffer : Bytes
  pub has_length : Bool
  pub body_length : ℕ

abbrev pub new_parser : DeviceListenerParser
new_parser = record { device_num_to_id = []; buffer = []; has_length = false; body_length = 0 }

-- `read_u32::<LittleEndian>`, of four bytes or more.
unfoldable pub read_u32 : Bytes → ℕ
read_u32 (a ∷ b ∷ c ∷ d ∷ rest) = a + b * 2 ^ 8 + c * 2 ^ 16 + d * 2 ^ 24
read_u32 _ = 0

-- How many bytes a character takes.
unfoldable pub utf8_size : Char → ℕ
utf8_size c =
    if ltb (code c) 0x80
    then 1
    else if ltb (code c) 0x800
    then 2
    else if ltb (code c) 0x10000
    then 3
    else 4

-- `str::len`
unfoldable pub str_len : String → ℕ
str_len String.[] = 0
str_len (String.◌∷◌ c s) = utf8_size c + str_len s

-- `&s[..n]` and `&s[n..]`, which panic inside a character and behind the end.
unfoldable pub split_at : String → ℕ → Option (String × String)
split_at s zero = some ("", s)
split_at String.[] (suc n) = none
split_at (String.◌∷◌ c s) (suc n) =
    let rest : Option (String × String) = split_at s (suc n - utf8_size c) in
    if leb (utf8_size c) (suc n)
    then Option.map (λ (halves : String × String). (String.◌∷◌ c halves.0, halves.1)) rest
    else none

-- A serial number of 24 bytes gets its dash.
unfoldable pub standard_id : String → Option String
standard_id device_id =
    if str_len device_id == 24
    then Option.map (λ (halves : String × String). concat halves.0 (concat "-" halves.1))
        (split_at device_id 8)
    else some device_id

abbrev pub unwrap_or {ℓ} : {A : Type ℓ} → Option A → A → A
unwrap_or (some a) d = a
unwrap_or none d = d

-- The table of the known devices, and what a message leads to.
abbrev pub Parsed : Type 0
Parsed = HashMap ℕ String × Result (Option DeviceEvent)

-- The events that `on_recv` pushes for a packet's result.
abbrev pub to_events : Result (Option DeviceEvent) → List DeviceEvent
to_events (ok (some event)) = event ∷ []
to_events (ok none) = []
to_events (err e) = []

-- The length is read once there are four bytes.
unfoldable pub load_length : DeviceListenerParser → DeviceListenerParser
load_length d =
    if not d.has_length && leb 4 (length d.buffer)
    then record d { body_length = read_u32 d.buffer; has_length = true }
    else d

abbrev pub with_events :
    List DeviceEvent
    → Option (DeviceListenerParser × List DeviceEvent)
    → Option (DeviceListenerParser × List DeviceEvent)
with_events events none = none
with_events events (some (d, more)) = some (d, events ++ more)

-- `from_utf8_lossy` gives the bytes of the text that it makes.
module _ (p : Plist) (from_utf8_lossy : Bytes → Bytes) where
  open p use {Value, Dictionary, as_string, as_unsigned_integer, as_dictionary, get, from_bytes}

  unfoldable pub parse_result : Dictionary → Result (Option DeviceEvent)
  parse_result dict = elim (Option.bind (get dict "Number") as_unsigned_integer) [
    | none ↦ ok none
    | some number ↦
        if not (number == 0)
        then err (usbmuxd (concat "Listen request failed, error code: " (to_string number)))
        else ok none
  ]

  unfoldable pub parse_attached : HashMap ℕ String → Dictionary → Option Parsed
  parse_attached known dict = elim (Option.bind (get dict "Properties") as_dictionary) [
    | none ↦ some (known, err (usbmuxd "Missing Properties"))
    | some props ↦
        let device_num : ℕ = unwrap_or (Option.bind (get props "DeviceID") as_unsigned_integer) 0 in
        Option.map
          (λ (device_id : String). (
            Dict.insert known device_num device_id,
            ok (some (attached device_id (device_num % 2 ^ 32))),
          ))
          (standard_id (unwrap_or (Option.bind (get props "SerialNumber") as_string) ""))
  ]

  unfoldable pub parse_detached : HashMap ℕ String → Dictionary → Parsed
  parse_detached known dict = elim (Option.bind (get dict "DeviceID") as_unsigned_integer) [
    | none ↦ (known, err (usbmuxd "Missing DeviceID"))
    | some device_num ↦ elim (Dict.get known device_num) [
      | none ↦ (known, ok none)
      | some device_id ↦
          (Dict.remove known device_num, ok (some (detached device_id (device_num % 2 ^ 32))))
    ]
  ]

  unfoldable pub parse_message : HashMap ℕ String → Dictionary → Option Parsed
  parse_message known dict =
      let message_type : String = unwrap_or (Option.bind (get dict "MessageType") as_string) "" in
      if message_type == "Result"
      then some (known, parse_result dict)
      else if message_type == "Attached"
      then parse_attached known dict
      else if message_type == "Detached"
      then some (parse_detached known dict)
      else some (known, ok none)

  unfoldable pub parse_plist_message : HashMap ℕ String → Bytes → Option Parsed
  parse_plist_message known xml =
      elim (do
        value ← map_err (from_bytes xml) (λ e. plist (concat "plist parsing failed: " e))
        ok_or (as_dictionary value) (plist "Not a dictionary type")) [
          | ok dict ↦ parse_message known dict
          | err e ↦ some (known, err e)
        ]

  unfoldable pub parse_packet : HashMap ℕ String → Bytes → Option Parsed
  parse_packet known packet =
      if ltb (length packet) 16
      then some (known, err (usbmuxd "Packet too short"))
      else if not (read_u32 packet == length packet)
      then some (
        known,
        err (
            usbmuxd (
              concat "Length mismatch: " (
                concat (to_string (read_u32 packet)) (concat " != " (to_string (length packet)))))),
      )
      else if not (read_u32 (drop 4 packet) == 1) || not (read_u32 (drop 8 packet) == type_plist)
      then some (known, ok none)
      else parse_plist_message known (from_utf8_lossy (drop 16 packet))

  -- The loop of `on_recv`, on fuel.
  unfoldable pub drain : ℕ → DeviceListenerParser → Option (DeviceListenerParser × List DeviceEvent)
  drain zero d = none
  drain (suc fuel) d =
      let loaded : DeviceListenerParser = load_length d in
      if loaded.has_length && leb loaded.body_length (length loaded.buffer)
      then elim (parse_packet loaded.device_num_to_id (take loaded.body_length loaded.buffer)) [
        | none ↦ none
        | some (known, result) ↦ with_events (to_events result) (
            drain fuel (record loaded {
              device_num_to_id = known;
              buffer = drop loaded.body_length loaded.buffer;
              has_length = false;
            }))
      ]
      else some (loaded, [])

  -- A round that takes a byte or more leaves less in the buffer, so that one more round than there
  -- are bytes is enough for every call that returns.
  unfoldable pub on_recv :
      DeviceListenerParser → Bytes → Option (DeviceListenerParser × List DeviceEvent)
  on_recv d bytes =
      let filled : DeviceListenerParser = record d { buffer = d.buffer ++ bytes } in
      drain (suc (length filled.buffer)) filled

  -- The reads of one connection in `run_device_listener`, with the events that it sends.
  unfoldable pub receive :
      DeviceListenerParser → List Bytes → Option (DeviceListenerParser × List DeviceEvent)
  receive d [] = some (d, [])
  receive d (chunk ∷ chunks) = elim (on_recv d chunk) [
    | none ↦ none
    | some (d', events) ↦ with_events events (receive d' chunks)
  ]
