-- ===== src/DeviceListener/Stalls.antt =====
-- A header with length zero: the loop of on_recv does not end.
use ios_webkit_debug_proxy_r.Base.{
  ℕ, zero, suc, ◌≤◌, ◌≡◌, refl, ap, ◌∙◌, true, false, none, [], arith, leb, Bytes, length, take,
}
use ios_webkit_debug_proxy_r.Error.{usbmuxd, err}
use ios_webkit_debug_proxy_r.Plist.{Plist}
use ios_webkit_debug_proxy_r.DeviceListener.{
  DeviceListenerParser, read_u32, parse_packet, load_length, drain, with_events,
}
use ios_webkit_debug_proxy_r.DeviceListener.Rounds.{ready, taken, drain-taken}

abbrev loaded_zero : DeviceListenerParser → DeviceListenerParser
loaded_zero d = record d { body_length = 0; has_length = true }

load_length-zero :
    (d : DeviceListenerParser)
    → d.has_length ≡ false
    → 4 ≤ length d.buffer
    → read_u32 d.buffer ≡ 0
    → load_length d ≡ loaded_zero d
unfolding load_length
load_length-zero d fresh four z =
    let enough : leb 4 (length d.buffer) ≡ true = ground arith in rw (fresh, enough, z)

module _ (p : Plist) (lossy : Bytes → Bytes) where
  drain-again :
      (fuel : ℕ) (d : DeviceListenerParser)
      → load_length d ≡ loaded_zero d
      → drain p lossy (suc fuel) d
        ≡ with_events [] (drain p lossy fuel (record d { body_length = 0; has_length = false }))
  unfolding parse_packet
  drain-again fuel d zeroed =
      let now : ready (load_length d) ≡ true = ap ready zeroed ∙ ground arith in
      drain-taken p lossy fuel d [] (load_length d).device_num_to_id
        (err (usbmuxd "Packet too short")) now
        (ap (λ (l : DeviceListenerParser). take l.body_length l.buffer) zeroed) refl
      ∙ ap
          (λ (l : DeviceListenerParser).
            with_events [] (drain p lossy fuel (taken l.device_num_to_id l)))
          zeroed

  -- Where the buffer starts with a header of length zero, the loop of on_recv does not end: it
  -- returns on no amount of fuel.
  pub drain-zero :
      (fuel : ℕ) (d : DeviceListenerParser)
      → d.has_length ≡ false
      → 4 ≤ length d.buffer
      → read_u32 d.buffer ≡ 0
      → drain p lossy fuel d ≡ none
  unfolding drain
  drain-zero zero d fresh four z = refl
  drain-zero (suc fuel) d fresh four z =
      drain-again fuel d (load_length-zero d fresh four z)
      ∙ ap (with_events [])
          (drain-zero fuel (record d { body_length = 0; has_length = false }) refl four z)
