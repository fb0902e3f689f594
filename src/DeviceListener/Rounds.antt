-- ===== src/DeviceListener/Rounds.antt =====
-- The loop of on_recv on a buffer with packets of a stream.
use ios_webkit_debug_proxy_r.Base.{
  ℕ, zero, suc, ◌≤◌, ◌<◌, String, ◌≡◌, refl, sym, ap, subst, ◌∙◌, inl, inr, Bool, true, false, ◌&&◌,
  Option, some, List, [], ◌∷◌, ◌++◌, append_assoc, arith, leb, Bytes, length, take, drop,
  length-drop, Bool-cases, Option-cases, and_split,
}
use ios_webkit_debug_proxy_r.Base.Dict.{HashMap}
use ios_webkit_debug_proxy_r.Error.{Result}
use ios_webkit_debug_proxy_r.Plist.{Plist}
use ios_webkit_debug_proxy_r.DeviceListener.{
  DeviceEvent, DeviceListenerParser, parse_packet, to_events, load_length, with_events, drain,
}
use ios_webkit_debug_proxy_r.DeviceListener.Packets.{
  wire, split_packet, Waits, load_length-Waits, stuck-done, parse_all, Drained, buffer-load_length,
}

-- The parser takes a packet now.
abbrev pub ready : DeviceListenerParser → Bool
ready d = d.has_length && leb d.body_length (length d.buffer)

-- The parser with its packet taken off.
abbrev pub taken : HashMap ℕ String → DeviceListenerParser → DeviceListenerParser
taken known d = record d {
  device_num_to_id = known;
  buffer = drop d.body_length d.buffer;
  has_length = false;
}

pub known-load_length :
    (d : DeviceListenerParser) → (load_length d).device_num_to_id ≡ d.device_num_to_id
unfolding load_length
known-load_length d = ground arith

module _ (p : Plist) (lossy : Bytes → Bytes) where
  -- What parsing a first packet and then the others gives.
  record Split (known : HashMap ℕ String) (packet : Bytes) (rest : List Bytes)
      (last : HashMap ℕ String) (events : List DeviceEvent) : Type 0 where
    known' : HashMap ℕ String
    result : Result (Option DeviceEvent)
    more : List DeviceEvent
    first : parse_packet p lossy known packet ≡ some (known', result)
    others : parse_all p lossy known' rest ≡ some (last, more)
    joined : events ≡ to_events result ++ more

  parse_all-Split :
      (known : HashMap ℕ String) (packet : Bytes) (rest : List Bytes) (last : HashMap ℕ String)
      (events : List DeviceEvent)
      → parse_all p lossy known (packet ∷ rest) ≡ some (last, events)
      → Split known packet rest last events
  unfolding parse_all
  parse_all-Split known packet rest last events h =
      elim (Option-cases (parse_packet p lossy known packet)) [
        | inl gone ↦ absurd (cc)
        | inr ((known', result), first) ↦ elim (Option-cases (parse_all p lossy known' rest)) [
          | inl gone ↦ absurd (cc)
          | inr ((last', more), others) ↦ record {
            known' = known';
            result = result;
            more = more;
            first = first;
            others = cc;
            joined = cc;
          }
        ]
      ]

  drain-idle :
      (fuel : ℕ) (d : DeviceListenerParser)
      → ready (load_length d) ≡ false
      → drain p lossy (suc fuel) d ≡ some (load_length d, [])
  unfolding drain
  drain-idle fuel d idle = rw (idle, drain)

  pub drain-taken :
      (fuel : ℕ) (d : DeviceListenerParser) (packet : Bytes) (known : HashMap ℕ String)
      (result : Result (Option DeviceEvent))
      → ready (load_length d) ≡ true
      → take (load_length d).body_length (load_length d).buffer ≡ packet
      → parse_packet p lossy (load_length d).device_num_to_id packet ≡ some (known, result)
      → drain p lossy (suc fuel) d
        ≡ with_events (to_events result) (drain p lossy fuel (taken known (load_length d)))
  unfolding drain
  drain-taken fuel d packet known result now front parsed = rw (now, front, parsed, drain)

  Drained-with_events :
      (events more : List DeviceEvent) (left : Bytes) (known : HashMap ℕ String)
      (result : Option (DeviceListenerParser × List DeviceEvent))
      → Drained p lossy result left known more
      → Drained p lossy (with_events events result) left known (events ++ more)
  Drained-with_events events more left known result v = record {
    parser = v.parser;
    packets = v.packets;
    done = events ++ v.done;
    later = v.later;
    returned = ap (with_events events) v.returned;
    waits = v.waits;
    parsed = v.parsed;
    joined = ap (λ es. events ++ es) v.joined ∙ sym (append_assoc events v.done v.later);
    complete = v.complete;
  }

  -- The packet taken off leaves a parser before the others.
  taken-Waits :
      (d : DeviceListenerParser) (left packet : Bytes) (rest : List Bytes)
      (known : HashMap ℕ String)
      → Waits d left (packet ∷ rest)
      → d.body_length ≡ length packet
      → length packet ≤ length d.buffer
      → (take d.body_length d.buffer ≡ packet) × Waits (taken known d) left rest
  taken-Waits d left packet rest known v body room =
      let (front, back) = split_packet packet d.buffer left (wire rest) v.joined room in
      (
        ap (λ n. take n d.buffer) body ∙ front,
        record {
          joined = ap (λ n. drop n d.buffer ++ left) body ∙ back;
          are_packets = v.are_packets.1;
          loaded = λ h. absurd (cc);
        },
      )

  -- The loop does what it should of any parser with fewer bytes than fuel.
  abbrev Behaves : ℕ → Bytes → HashMap ℕ String → Type 0
  Behaves fuel left last =
      (d : DeviceListenerParser) (packets : List Bytes) (events : List DeviceEvent)
      → Waits d left packets
      → length d.buffer < fuel
      → parse_all p lossy d.device_num_to_id packets ≡ some (last, events)
      → Drained p lossy (drain p lossy fuel d) left last events

  drain-round :
      (fuel : ℕ) (d : DeviceListenerParser) (left packet : Bytes) (rest : List Bytes)
      (last : HashMap ℕ String) (events : List DeviceEvent)
      → Waits (load_length d) left (packet ∷ rest)
      → (load_length d).body_length ≡ length packet
      → ready (load_length d) ≡ true
      → length (load_length d).buffer < suc fuel
      → parse_all p lossy (load_length d).device_num_to_id (packet ∷ rest) ≡ some (last, events)
      → Behaves fuel left last
      → Drained p lossy (drain p lossy (suc fuel) d) left last events
  drain-round fuel d left packet rest last events v body now enough parsed behaves =
      let room : length packet ≤ length (load_length d).buffer = ground arith in
      let split = parse_all-Split (load_length d).device_num_to_id packet rest last events parsed in
      let (front, v') = taken-Waits (load_length d) left packet rest split.known' v body room in
      let shorter : length (drop (load_length d).body_length (load_length d).buffer) < fuel =
        omega (
          arith,
          length-drop (load_length d).body_length (load_length d).buffer,
          body,
          v.are_packets.0.0,
        ) in
      subst (λ r. Drained p lossy r left last events)
        (sym (drain-taken fuel d packet split.known' split.result now front split.first))
        (subst
          (λ es.
            Drained p lossy
              (with_events (to_events split.result)
                (drain p lossy fuel (taken split.known' (load_length d))))
              left last es)
          (sym split.joined)
          (Drained-with_events (to_events split.result) split.more left last _
            (behaves (taken split.known' (load_length d)) rest split.more v' shorter split.others)))

  pub drain-Drained :
      (fuel : ℕ) (d : DeviceListenerParser) (left : Bytes) (packets : List Bytes)
      (last : HashMap ℕ String) (events : List DeviceEvent)
      → Waits d left packets
      → length d.buffer < fuel
      → parse_all p lossy d.device_num_to_id packets ≡ some (last, events)
      → Drained p lossy (drain p lossy fuel d) left last events
  drain-Drained zero d left packets last events v enough parsed = absurd (omega arith)
  drain-Drained (suc fuel) d left packets last events v enough parsed =
      let v' : Waits (load_length d) left packets = load_length-Waits d left packets v in
      let parsed' : parse_all p lossy (load_length d).device_num_to_id packets
          ≡ some (last, events) =
        ap (λ k. parse_all p lossy k packets) (known-load_length d) ∙ parsed in
      elim (Bool-cases (ready (load_length d))) [
        | inr idle ↦ record {
          parser = load_length d;
          packets = packets;
          done = [];
          later = events;
          returned = drain-idle fuel d idle;
          waits = v';
          parsed = parsed';
          joined = refl;
          complete = λ all.
              stuck-done d packets (subst (λ l. Waits (load_length d) l packets) all v') idle;
        }
        | inl now ↦
            let (packet, rest, same, body) =
              v'.loaded
                (and_split (load_length d).has_length
                  (leb (load_length d).body_length (length (load_length d).buffer)) now).0 in
            drain-round fuel d left packet rest last events
              (subst (λ ps. Waits (load_length d) left ps) same v') body now
              (omega (arith, ap length (buffer-load_length d)))
              (ap (λ ps. parse_all p lossy (load_length d).device_num_to_id ps) (sym same)
                ∙ parsed')
              (λ d' rest' more v'' short others.
                drain-Drained fuel d' left rest' last more v'' short others)
      ]
