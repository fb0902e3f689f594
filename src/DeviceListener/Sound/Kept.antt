-- ===== src/DeviceListener/Sound/Kept.antt =====
-- The parser keeps the table of its devices, and its events are sound.
use mathlib.Core.Option
use ios_webkit_debug_proxy_r.Base.{
  ℕ, zero, suc, ◌%◌, ◌^◌, String, ◌≡◌, refl, sym, subst, Bool, true, false, not, ◌||◌, Option, none,
  some, List, [], ◌++◌, ◌==◌, nat_eq, string_eq, if◌then◌else◌, ltb, Bytes, length, take, drop,
  option_rule, if_rule, Holds, hold,
}
use ios_webkit_debug_proxy_r.Base.Dict.{HashMap}
use ios_webkit_debug_proxy_r.Base.Dict
use ios_webkit_debug_proxy_r.Error.{Error, Result, ok, err}
use ios_webkit_debug_proxy_r.Plist.{Plist}
use ios_webkit_debug_proxy_r.DeviceListener.Rounds.{known-load_length, ready, taken}
use ios_webkit_debug_proxy_r.DeviceListener.{
  DeviceEvent, attached, DeviceListenerParser, Parsed, to_events, load_length, with_events,
  standard_id, parse_result, parse_attached, parse_detached, parse_message, parse_plist_message,
  parse_packet, unwrap_or, read_u32, type_plist, drain, on_recv,
}
use ios_webkit_debug_proxy_r.DeviceListener.Sound.{
  Known, Known-more, Known-insert, Known-remove, Sound, SoundParsed, Sound-with_events,
}

quiet : (t : Bool) (e : Error) → to_events (if t then err e else ok none) ≡ []
quiet true e = refl
quiet false e = refl

module _ (p : Plist) (lossy : Bytes → Bytes) (seen : List DeviceEvent) (known : HashMap ℕ String)
    (h : Known seen known) where
  open p use {Value, Dictionary, as_dictionary, get, as_unsigned_integer, as_string}

  map-Sound :
      (num : Option ℕ) (device_id : Option String)
      → SoundParsed seen (
          Option.map
            (λ id. (
              Dict.insert known (unwrap_or num 0) id,
              ok (some (attached id (unwrap_or num 0 % 2 ^ 32))),
            ))
            device_id)
  map-Sound num none = tt
  map-Sound num (some id) = ((tt, tt), Known-insert seen known (unwrap_or num 0) id h)

  parse_attached-Sound : (dict : Dictionary) → SoundParsed seen (parse_attached p lossy known dict)
  unfolding parse_attached
  parse_attached-Sound dict =
      option_rule (SoundParsed seen) (Option.bind (get dict "Properties") as_dictionary) _ _
        (λ _. (tt, h))
        λ props _.
          map-Sound (Option.bind (get props "DeviceID") as_unsigned_integer)
            (standard_id (unwrap_or (Option.bind (get props "SerialNumber") as_string) ""))

  parse_result-none : (dict : Dictionary) → to_events (parse_result p lossy dict) ≡ []
  unfolding parse_result
  parse_result-none dict =
      option_rule (λ r. to_events r ≡ []) (Option.bind (get dict "Number") as_unsigned_integer) _ _
        (λ _. refl) λ number _. quiet (not (number == 0)) _

  parse_detached-Sound :
      (dict : Dictionary) → SoundParsed seen (some (parse_detached p lossy known dict))
  unfolding parse_detached
  parse_detached-Sound dict =
      option_rule (λ r. SoundParsed seen (some r))
        (Option.bind (get dict "DeviceID") as_unsigned_integer) _ _ (λ _. (tt, h))
        λ num _.
          option_rule (λ r. SoundParsed seen (some r)) (Dict.get known num) _ _ (λ _. (tt, h))
            λ id found. ((h num id found, tt), Known-more seen _ _ (Known-remove seen known num h))

  parse_result-Sound :
      (dict : Dictionary) → SoundParsed seen (some (known, parse_result p lossy dict))
  parse_result-Sound dict = rw (parse_result-none dict) (tt, h)

  abbrev Fine : Option Parsed → Type 0
  Fine r = Holds (SoundParsed seen) r

  abbrev fine_error : (e : Error) → Fine (some (known, err e))
  fine_error e = hold (tt, h)

  abbrev fine_none : Fine (some (known, ok none))
  fine_none = hold (tt, h)

  parse_message-Sound : (dict : Dictionary) → Fine (parse_message p lossy known dict)
  unfolding parse_message
  parse_message-Sound dict =
      let message_type : String = unwrap_or (Option.bind (get dict "MessageType") as_string) "" in
      if_rule Fine (message_type == "Result") _ _ (λ _. hold (parse_result-Sound dict))
        λ _.
          if_rule Fine (message_type == "Attached") _ _ (λ _. hold (parse_attached-Sound dict))
            λ _.
              if_rule Fine (message_type == "Detached") _ _ (λ _. hold (parse_detached-Sound dict))
                λ _. fine_none

  parse_value-Sound :
      (r : Result Dictionary)
      → Fine (elim r [ ok dict ↦ parse_message p lossy known dict | err e ↦ some (known, err e) ])
  parse_value-Sound (ok dict) = parse_message-Sound dict
  parse_value-Sound (err e) = fine_error e

  parse_packet-Sound : (packet : Bytes) → Fine (parse_packet p lossy known packet)
  unfolding parse_packet parse_plist_message
  parse_packet-Sound packet =
      if_rule Fine (ltb (length packet) 16) _ _ (λ _. fine_error _)
        λ _.
          if_rule Fine (not (read_u32 packet == length packet)) _ _ (λ _. fine_error _)
            λ _.
              if_rule Fine
                (not (read_u32 (drop 4 packet) == 1)
                  || not (read_u32 (drop 8 packet) == type_plist))
                _ _ (λ _. fine_none) λ _. parse_value-Sound _

module _ (p : Plist) (lossy : Bytes → Bytes) where
  abbrev pub device_table : DeviceListenerParser → HashMap ℕ String
  device_table d = d.device_num_to_id

  -- A round that takes a packet, where the rounds behind it are sound.
  round-Sound :
      (fuel : ℕ) (seen : List DeviceEvent) (loaded : DeviceListenerParser) (r : Option Parsed)
      → SoundParsed seen r
      → ((seen' : List DeviceEvent) (d : DeviceListenerParser)
          → Known seen' d.device_num_to_id
          → Sound device_table seen' (drain p lossy fuel d))
      → Sound device_table seen (elim r [
        | none ↦ none
        | some (known, result) ↦ with_events (to_events result) (
            drain p lossy fuel (record loaded {
              device_num_to_id = known;
              buffer = drop loaded.body_length loaded.buffer;
              has_length = false;
            }))
      ])
  round-Sound fuel seen loaded none h later = tt
  round-Sound fuel seen loaded (some (known, result)) (sound, h) later =
      Sound-with_events seen (to_events result) _ sound (later _ (taken known loaded) h)

  drain-Sound :
      (fuel : ℕ) (seen : List DeviceEvent) (d : DeviceListenerParser)
      → Known seen d.device_num_to_id
      → Sound device_table seen (drain p lossy fuel d)
  unfolding drain
  drain-Sound zero seen d h = tt
  drain-Sound (suc fuel) seen d h =
      let loaded : DeviceListenerParser = load_length d in
      let h' : Known seen loaded.device_num_to_id =
        subst (Known seen) (sym (known-load_length d)) h in
      let idle : Sound device_table seen (some (loaded, [])) = (tt, h') in
      (if_rule (Holds (Sound device_table seen)) (ready loaded) _ _
        (λ _.
          let packet : Bytes = take loaded.body_length loaded.buffer in
          hold (
            round-Sound fuel seen loaded _
              (parse_packet-Sound p lossy seen loaded.device_num_to_id h' packet).holds
              (drain-Sound fuel)))
        λ _. hold idle).holds

  pub on_recv-Sound :
      (seen : List DeviceEvent) (d : DeviceListenerParser) (bytes : Bytes)
      → Known seen d.device_num_to_id
      → Sound device_table seen (on_recv p lossy d bytes)
  unfolding on_recv
  on_recv-Sound seen d bytes h = drain-Sound _ seen (record d { buffer = d.buffer ++ bytes }) h
