-- ===== src/DeviceListener/Chunks.antt =====
-- The parser on a stream of packets that comes in chunks.
use mathlib.Core.Option.{some-injective}
use ios_webkit_debug_proxy_r.Base.{
  ℕ, suc, String, ◌≡◌, refl, sym, ap, ◌∙◌, false, Option, some, List, [], ◌∷◌, ◌++◌, append_assoc,
  append-nil, arith, Bytes, length, length-append, All,
}
use ios_webkit_debug_proxy_r.Base.Dict.{HashMap}
use ios_webkit_debug_proxy_r.Plist.{Plist}
use ios_webkit_debug_proxy_r.DeviceListener.{
  DeviceEvent, DeviceListenerParser, with_events, on_recv, receive,
}
use ios_webkit_debug_proxy_r.DeviceListener.Packets.{wire, IsPacket, Waits, parse_all}
use ios_webkit_debug_proxy_r.DeviceListener.Rounds.{drain-Drained}

module _ (p : Plist) (lossy : Bytes → Bytes) where
  filled-Waits :
      (d : DeviceListenerParser) (chunk left : Bytes) (packets : List Bytes)
      → Waits d (chunk ++ left) packets
      → Waits (record d { buffer = d.buffer ++ chunk }) left packets
  filled-Waits d chunk left packets v = record {
    joined = append_assoc d.buffer chunk left ∙ v.joined;
    are_packets = v.are_packets;
    loaded = v.loaded;
  }

  -- The reads return a parser that knows these devices and has an empty buffer, and these events.
  pub record Received (result : Option (DeviceListenerParser × List DeviceEvent))
      (last : HashMap ℕ String) (events : List DeviceEvent) : Type 0 where
    pub parser : DeviceListenerParser
    pub returned : result ≡ some (parser, events)
    pub known : parser.device_num_to_id ≡ last
    pub emptied : parser.buffer ≡ []

  receive-Received :
      (chunks : List Bytes) (d : DeviceListenerParser) (packets : List Bytes)
      (last : HashMap ℕ String) (events : List DeviceEvent)
      → Waits d (wire chunks) packets
      → (wire chunks ≡ [] → packets ≡ [])
      → parse_all p lossy d.device_num_to_id packets ≡ some (last, events)
      → Received (receive p lossy d chunks) last events
  unfolding receive on_recv parse_all
  receive-Received [] d packets last events v complete parsed =
      let over : packets ≡ [] = complete refl in
      let finished : some (d.device_num_to_id, []) ≡ some (last, events) =
        sym (ap (parse_all p lossy d.device_num_to_id) over) ∙ parsed in
      let same : (d.device_num_to_id, []) ≡ (last, events) = some-injective _ _ finished in
      record {
        parser = d;
        returned = ap (λ (x : HashMap ℕ String × List DeviceEvent). some (d, x.1)) same;
        known = ap (λ (x : HashMap ℕ String × List DeviceEvent). x.0) same;
        emptied = sym (append-nil d.buffer) ∙ (v.joined ∙ ap wire over);
      }
  receive-Received (chunk ∷ chunks) d packets last events v complete parsed =
      let filled : DeviceListenerParser = record d { buffer = d.buffer ++ chunk } in
      let drained =
        drain-Drained p lossy (suc (length filled.buffer)) filled (wire chunks) packets last events
          (filled-Waits d chunk (wire chunks) packets v) (omega arith) parsed in
      let then_ =
        receive-Received chunks drained.parser drained.packets last drained.later drained.waits
          drained.complete drained.parsed in
      record {
        parser = then_.parser;
        returned =
            rw (drained.returned, receive)
              (ap (with_events drained.done) then_.returned
                ∙ ap (λ es. some (then_.parser, es)) (sym drained.joined));
        known = then_.known;
        emptied = then_.emptied;
      }

  wire-nil : (packets : List Bytes) → All IsPacket packets → wire packets ≡ [] → packets ≡ []
  wire-nil [] are h = refl
  wire-nil (packet ∷ packets) are h =
      absurd (omega (arith, are.0.0, ap length h, length-append packet (wire packets)))

  -- However the bytes of a sequence of packets are cut into reads, a fresh parser finds the events
  -- that the packets parsed one by one give, knows the same devices in the end, and has an empty
  -- buffer. It holds where each packet starts with its length, of four or more, and parsing none
  -- of them panics.
  pub receive-chunks :
      (d : DeviceListenerParser) (packets chunks : List Bytes) (last : HashMap ℕ String)
      (events : List DeviceEvent)
      → d.buffer ≡ []
      → d.has_length ≡ false
      → All IsPacket packets
      → wire chunks ≡ wire packets
      → parse_all p lossy d.device_num_to_id packets ≡ some (last, events)
      → Received (receive p lossy d chunks) last events
  receive-chunks d packets chunks last events empty fresh are same parsed =
      receive-Received chunks d packets last events
        (record {
          joined = ap (λ b. b ++ wire chunks) empty ∙ same;
          are_packets = are;
          loaded = λ h. absurd (cc);
        })
        (λ over. wire-nil packets are (sym same ∙ over)) parsed
