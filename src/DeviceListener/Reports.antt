-- ===== src/DeviceListener/Reports.antt =====
-- What is reported over the connections of the task.
use mathlib.Core.Option.{none-ne-some}
use ios_webkit_debug_proxy_r.Base.{
  ℕ, zero, suc, ◌≡◌, refl, sym, ap, subst, option_rule, Holds, hold, nat_eq, Bool, true, false,
  Option, none, some, List, [], ◌∷◌, ◌++◌, Bytes, All, if◌then◌else◌,
}
use ios_webkit_debug_proxy_r.Base.Dict.{HashMap}
use ios_webkit_debug_proxy_r.Base.Dict
use ios_webkit_debug_proxy_r.Plist.{Plist}
use ios_webkit_debug_proxy_r.DeviceListener.{DeviceEvent, DeviceListenerParser, new_parser, on_recv}
use ios_webkit_debug_proxy_r.DeviceListener.Sound.{IsSound, IsSound-append, Known, Sound, after}
use ios_webkit_debug_proxy_r.DeviceListener.Sound.Kept.{on_recv-Sound, device_table}
use ios_webkit_debug_proxy_r.DeviceListener.Connection.{
  Polled, read, read_end, read_error, cancelled, Ended, finished, failed, waiting, stuck, Ran,
  send_events, with_sent, Connection, Round, listen, run_device_listener, spawn_device_listener,
}

-- The events that are sent are sound; where the receiver takes all, they are all the events.
IsSound-send_events :
    (room : ℕ) (seen events : List DeviceEvent)
    → IsSound seen events
    → IsSound seen (send_events room events).0
unfolding send_events
IsSound-send_events room seen [] h = tt
IsSound-send_events zero seen (event ∷ events) h = tt
IsSound-send_events (suc room) seen (event ∷ events) h =
    (h.0, IsSound-send_events room (event ∷ seen) events h.1)

send_events-all :
    (room left : ℕ) (events : List DeviceEvent)
    → (send_events room events).1 ≡ some left
    → (send_events room events).0 ≡ events
unfolding send_events
send_events-all room left [] h = refl
send_events-all zero left (event ∷ events) h = absurd (none-ne-some left h)
send_events-all (suc room) left (event ∷ events) h =
    ap (◌∷◌ event) (send_events-all room left events h)

module _ (p : Plist) (lossy : Bytes → Bytes) where
  abbrev sends_on : List DeviceEvent × Option ℕ → (ℕ → Ran) → Ran
  sends_on sent next = elim sent.1 [
    | none ↦ record { sent = sent.0; ended = finished; room = 0 }
    | some left ↦ with_sent sent.0 (next left)
  ]

  abbrev reads_on : ℕ → List Polled → Option (DeviceListenerParser × List DeviceEvent) → Ran
  reads_on room rest none = record { sent = []; ended = stuck; room = room }
  reads_on room rest (some (d, events)) =
      sends_on (send_events room events) (λ left. listen p lossy d left rest)

  -- The events of a read are sent, and sound events follow.
  sent-IsSound :
      (seen events : List DeviceEvent) (sent : List DeviceEvent × Option ℕ) (next : ℕ → Ran)
      → IsSound seen events
      → IsSound seen sent.0
      → ((left : ℕ) → sent.1 ≡ some left → sent.0 ≡ events)
      → ((left : ℕ) → IsSound (after seen events) (next left).sent)
      → IsSound seen (sends_on sent next).sent
  sent-IsSound seen events (sent, none) next h part all later = part
  sent-IsSound seen events (sent, some left) next h part all later =
      subst (λ s. IsSound seen (s ++ (next left).sent)) (sym (all left refl))
        (IsSound-append seen events (next left).sent h (later left))

  read-IsSound :
      (room : ℕ) (rest : List Polled) (seen : List DeviceEvent)
      (result : Option (DeviceListenerParser × List DeviceEvent))
      → Sound (device_table p lossy) seen result
      → ((d : DeviceListenerParser) (left : ℕ) (seen' : List DeviceEvent)
          → Known seen' d.device_num_to_id
          → IsSound seen' (listen p lossy d left rest).sent)
      → IsSound seen (reads_on room rest result).sent
  read-IsSound room rest seen none h later = tt
  read-IsSound room rest seen (some (d, events)) (sound, known) later =
      sent-IsSound seen events (send_events room events) (λ left. listen p lossy d left rest) sound
        (IsSound-send_events room seen events sound)
        (λ left taken. send_events-all room left events taken)
        (λ left. later d left (after seen events) known)

  listen-IsSound :
      (d : DeviceListenerParser) (room : ℕ) (polled : List Polled) (seen : List DeviceEvent)
      → Known seen d.device_num_to_id
      → IsSound seen (listen p lossy d room polled).sent
  unfolding listen
  listen-IsSound d room [] seen h = tt
  listen-IsSound d room (read_end ∷ rest) seen h = tt
  listen-IsSound d room (read_error e ∷ rest) seen h = tt
  listen-IsSound d room (cancelled ∷ rest) seen h = tt
  listen-IsSound d room (read bytes ∷ rest) seen h =
      read-IsSound room rest seen (on_recv p lossy d bytes) (on_recv-Sound p lossy seen d bytes h)
        λ d' left seen' h'. listen-IsSound d' left rest seen' h'

  new_parser-Known : Known [] new_parser.device_num_to_id
  unfolding Dict.get
  new_parser-Known num id got = absurd (none-ne-some id got)

  run-IsSound : (room : ℕ) (c : Connection) → IsSound [] (run_device_listener p lossy room c).sent
  unfolding run_device_listener
  run-IsSound room c =
      (option_rule (Holds (λ (r : Ran). IsSound [] r.sent)) c.connect_error _ _
        (λ _.
          option_rule (Holds (λ (r : Ran). IsSound [] r.sent)) c.write_error _ _
            (λ _. hold (listen-IsSound new_parser room c.polled [] new_parser-Known))
            λ e _. hold tt)
        λ e _. hold tt).holds

  round-All :
      (stops waits : Bool) (sent : List DeviceEvent) (ended : Ended)
      (later : List (List DeviceEvent))
      → IsSound [] sent
      → All (IsSound []) later
      → All (IsSound []) (
          if stops
          then []
          else elim ended [ failed e ↦ if waits then sent ∷ [] else sent ∷ later | _ ↦ sent ∷ [] ])
  round-All true waits sent ended later h next = tt
  round-All false true sent (failed e) later h next = (h, tt)
  round-All false false sent (failed e) later h next = (h, next)
  round-All false waits sent finished later h next = (h, tt)
  round-All false waits sent waiting later h next = (h, tt)
  round-All false waits sent stuck later h next = (h, tt)

  -- Whenever and however connections to usbmuxd are lost and made again, each detachment that the
  -- task reports on a connection is of a device, by identifier and number, that the same
  -- connection reported as attached before.
  pub spawn_device_listener-IsSound :
      (room : ℕ) (rounds : List Round)
      → All (IsSound []) (spawn_device_listener p lossy room rounds)
  unfolding spawn_device_listener
  spawn_device_listener-IsSound room [] = tt
  spawn_device_listener-IsSound room (round ∷ rounds) =
      let ran : Ran = run_device_listener p lossy room round.connection in
      round-All round.is_cancelled round.cancelled_in_wait ran.sent ran.ended _
        (run-IsSound room round.connection) (spawn_device_listener-IsSound ran.room rounds)
