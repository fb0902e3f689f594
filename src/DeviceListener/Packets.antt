-- ===== src/DeviceListener/Packets.antt =====
-- One round of the parser's loop, on the packets of a stream.
use ios_webkit_debug_proxy_r.Base.{
  ℕ, ◌+◌, ◌≤◌, String, ◌≡◌, refl, sym, ap, ◌∙◌, inl, inr, true, false, not, ◌&&◌, Option, none,
  some, List, [], ◌∷◌, ◌++◌, arith, leb, Bytes, length, take, drop, length-append, All, Bool-cases,
}
use ios_webkit_debug_proxy_r.Base.Dict.{HashMap}
use ios_webkit_debug_proxy_r.Plist.{Plist}
use ios_webkit_debug_proxy_r.DeviceListener.{
  DeviceEvent, DeviceListenerParser, read_u32, parse_packet, to_events, load_length,
}

-- The bytes of a sequence of packets.
abbrev pub wire : List Bytes → Bytes
wire [] = []
wire (packet ∷ packets) = packet ++ wire packets

-- The packet starts with its length.
abbrev pub IsPacket : Bytes → Type 0
IsPacket packet = (4 ≤ length packet) × (read_u32 packet ≡ length packet)

pub read_u32-append : (b c : Bytes) → 4 ≤ length b → read_u32 (b ++ c) ≡ read_u32 b
unfolding read_u32
read_u32-append [] c h = absurd (omega arith)
read_u32-append (x ∷ []) c h = absurd (omega arith)
read_u32-append (x ∷ y ∷ []) c h = absurd (omega arith)
read_u32-append (x ∷ y ∷ z ∷ []) c h = absurd (omega arith)
read_u32-append (x ∷ y ∷ z ∷ w ∷ b) c h = refl

-- Where the buffer holds a whole packet, the packet is what is taken from it.
pub split_packet :
    (packet buffer left rest : Bytes)
    → buffer ++ left ≡ packet ++ rest
    → length packet ≤ length buffer
    → (take (length packet) buffer ≡ packet) × (drop (length packet) buffer ++ left ≡ rest)
split_packet [] buffer left rest h room = (refl, h)
split_packet (a ∷ packet) [] left rest h room = absurd (omega arith)
split_packet (a ∷ packet) (b ∷ buffer) left rest h room =
    let (taken, left') = split_packet packet buffer left rest (cc) (omega arith) in (cc, left')

-- The parser stands before these packets, of which the buffer is a first part and the bytes left to
-- come the rest; if it has read a length, it is that of the first.
pub record Waits (d : DeviceListenerParser) (left : Bytes) (packets : List Bytes) : Type 0 where
  pub joined : d.buffer ++ left ≡ wire packets
  pub are_packets : All IsPacket packets
  pub loaded :
      d.has_length ≡ true
      → (packet : Bytes) × (rest : List Bytes) × (packets ≡ packet ∷ rest)
        × (d.body_length ≡ length packet)

-- Four bytes are enough to read the first packet's length.
first_length :
    (buffer left : Bytes) (packets : List Bytes)
    → buffer ++ left ≡ wire packets
    → All IsPacket packets
    → 4 ≤ length buffer
    → (packet : Bytes) × (rest : List Bytes) × (packets ≡ packet ∷ rest)
      × (read_u32 buffer ≡ length packet)
first_length [] left [] joined are four = absurd (omega arith)
first_length (b ∷ buffer) left [] joined are four = absurd (cc)
first_length buffer left (packet ∷ rest) joined are four = (
  packet,
  rest,
  refl,
  sym (read_u32-append buffer left four)
      ∙ (ap read_u32 joined ∙ (read_u32-append packet (wire rest) are.0.0 ∙ are.0.1)),
)

-- Reading the length keeps this.
pub load_length-Waits :
    (d : DeviceListenerParser) (left : Bytes) (packets : List Bytes)
    → Waits d left packets
    → Waits (load_length d) left packets
unfolding load_length
load_length-Waits d left packets v =
    elim (Bool-cases (not d.has_length && leb 4 (length d.buffer))) [
      | inr keep ↦ rw keep v
      | inl fresh ↦ rw fresh (record {
        joined = v.joined;
        are_packets = v.are_packets;
        loaded = λ _. first_length d.buffer left packets v.joined v.are_packets (ground arith);
      })
    ]

pub buffer-load_length : (d : DeviceListenerParser) → (load_length d).buffer ≡ d.buffer
unfolding load_length
buffer-load_length d = ground arith

has_length-load_length :
    (d : DeviceListenerParser)
    → 4 ≤ length (load_length d).buffer
    → (load_length d).has_length ≡ true
unfolding load_length
has_length-load_length d four = ground arith

abbrev first_size : List Bytes → ℕ
first_size [] = 0
first_size (packet ∷ packets) = length packet

-- With the whole stream in the buffer, a parser that has no packet to take is done.
pub stuck-done :
    (d : DeviceListenerParser) (packets : List Bytes)
    → Waits (load_length d) [] packets
    → ((load_length d).has_length
        && leb (load_length d).body_length (length (load_length d).buffer))
      ≡ false
    → packets ≡ []
stuck-done d [] v idle = refl
stuck-done d (packet ∷ rest) v idle =
    let buffer : Bytes = (load_length d).buffer in
    let size : length buffer ≡ length packet + length (wire rest) =
      ground
        (arith, ap length v.joined, length-append buffer [], length-append packet (wire rest)) in
    let read : (load_length d).has_length ≡ true =
      has_length-load_length d (omega (arith, size, v.are_packets.0.0)) in
    let (packet', rest', same, body) = v.loaded read in
    let body' : (load_length d).body_length ≡ length packet = body ∙ sym (ap first_size same) in
    absurd (ground (arith, size, read, body', idle))

module _ (p : Plist) (from_utf8_lossy : Bytes → Bytes) where
  abbrev pub prepend :
      List DeviceEvent
      → Option (HashMap ℕ String × List DeviceEvent)
      → Option (HashMap ℕ String × List DeviceEvent)
  prepend events none = none
  prepend events (some (known, more)) = some (known, events ++ more)

  -- The packets of a stream, parsed one by one: the known devices behind them and their events.
  unfoldable pub parse_all :
      HashMap ℕ String → List Bytes → Option (HashMap ℕ String × List DeviceEvent)
  parse_all known [] = some (known, [])
  parse_all known (packet ∷ packets) = elim (parse_packet p from_utf8_lossy known packet) [
    | none ↦ none
    | some (known', result) ↦ prepend (to_events result) (parse_all known' packets)
  ]

  -- What a call of the loop leaves: a parser before the packets that are not complete.
  pub record Drained (result : Option (DeviceListenerParser × List DeviceEvent)) (left : Bytes)
      (known : HashMap ℕ String) (events : List DeviceEvent) : Type 0 where
    pub parser : DeviceListenerParser
    pub packets : List Bytes
    pub done : List DeviceEvent
    pub later : List DeviceEvent
    pub returned : result ≡ some (parser, done)
    pub waits : Waits parser left packets
    pub parsed : parse_all parser.device_num_to_id packets ≡ some (known, later)
    pub joined : events ≡ done ++ later
    pub complete : left ≡ [] → packets ≡ []
