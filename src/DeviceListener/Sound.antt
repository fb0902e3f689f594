-- ===== src/DeviceListener/Sound.antt =====
-- The detachments that one connection reports.
pub mod Kept
use mathlib.Core.Option
use ios_webkit_debug_proxy_r.Base.{
  ℕ, zero, suc, ◌%◌, ◌^◌, String, ◌≡◌, ◌⊎◌, inl, inr, refl, sym, subst, ap, ◌∙◌, Bool, true, false,
  not, ◌||◌, Option, none, some, List, [], ◌∷◌, ◌++◌, ◌==◌, nat_eq, string_eq, if◌then◌else◌, ltb,
  Bytes, length, take, drop, Bool-cases, option_rule, if_rule, Holds, hold,
}
use ios_webkit_debug_proxy_r.Base.Dict.{HashMap}
use ios_webkit_debug_proxy_r.Base.Dict
use ios_webkit_debug_proxy_r.Base.Dict.Laws.{get-insert, get-remove}
use ios_webkit_debug_proxy_r.Error.{Error, Result, ok, err}
use ios_webkit_debug_proxy_r.Plist.{Plist}
use ios_webkit_debug_proxy_r.DeviceListener.Rounds.{known-load_length, ready, taken}
use ios_webkit_debug_proxy_r.DeviceListener.{
  DeviceEvent, attached, detached, DeviceListenerParser, Parsed, to_events, load_length,
  with_events, standard_id, parse_result, parse_attached, parse_detached, parse_message,
  parse_plist_message, parse_packet, unwrap_or, read_u32, type_plist, drain, on_recv,
}

abbrev pub In : DeviceEvent → List DeviceEvent → Type 0
In x [] = ⊥
In x (y ∷ ys) = (x ≡ y) ⊎ In x ys

-- A detachment is of a device whose attachment was reported before, under the same number.
abbrev pub IsReported : List DeviceEvent → DeviceEvent → Type 0
IsReported seen (attached id num) = Unit
IsReported seen (detached id num) = In (attached id num) seen

-- The events are reported in this order; those before them are `seen`, the last first.
abbrev pub IsSound : List DeviceEvent → List DeviceEvent → Type 0
IsSound seen [] = Unit
IsSound seen (event ∷ events) = IsReported seen event × IsSound (event ∷ seen) events

abbrev pub after : List DeviceEvent → List DeviceEvent → List DeviceEvent
after seen [] = seen
after seen (event ∷ events) = after (event ∷ seen) events

pub IsSound-append :
    (seen before more : List DeviceEvent)
    → IsSound seen before
    → IsSound (after seen before) more
    → IsSound seen (before ++ more)
IsSound-append seen [] more h later = later
IsSound-append seen (event ∷ before) more h later =
    (h.0, IsSound-append (event ∷ seen) before more h.1 later)

after-append :
    (seen before more : List DeviceEvent)
    → after seen (before ++ more) ≡ after (after seen before) more
after-append seen [] more = refl
after-append seen (event ∷ before) more = after-append (event ∷ seen) before more

-- Each device in the table was reported.
abbrev pub Known : List DeviceEvent → HashMap ℕ String → Type 0
Known seen known =
    (num : ℕ) (id : String) → Dict.get known num ≡ some id → In (attached id (num % 2 ^ 32)) seen

pub Known-more :
    (seen : List DeviceEvent) (event : DeviceEvent) (known : HashMap ℕ String)
    → Known seen known
    → Known (event ∷ seen) known
Known-more seen event known h num id got = inr (h num id got)

pub Known-insert :
    (seen : List DeviceEvent) (known : HashMap ℕ String) (num : ℕ) (id : String)
    → Known seen known
    → Known (attached id (num % 2 ^ 32) ∷ seen) (Dict.insert known num id)
Known-insert seen known num id h k v got = elim (Bool-cases (num == k)) [
  | inl same ↦
      let here : num ≡ k = (nat_eq.eq_iff num k).0 same in
      let stored : some id ≡ some v = sym (get-insert known num k id ∙ rw same refl) ∙ got in
      let value : id ≡ v = Option.some-injective id v stored in
      inl (
        subst (λ x. attached v (x % 2 ^ 32) ≡ attached id (num % 2 ^ 32)) here
          (ap (λ x. attached x (num % 2 ^ 32)) (sym value)))
  | inr other ↦ inr (h k v (sym (get-insert known num k id ∙ rw other refl) ∙ got))
]

pub Known-remove :
    (seen : List DeviceEvent) (known : HashMap ℕ String) (num : ℕ)
    → Known seen known
    → Known seen (Dict.remove known num)
Known-remove seen known num h k v got = elim (Bool-cases (num == k)) [
  | inl same ↦ absurd (Option.none-ne-some v (sym (get-remove known num k ∙ rw same refl) ∙ got))
  | inr other ↦ h k v (sym (get-remove known num k ∙ rw other refl) ∙ got)
]

-- What a call leaves, if it returns: sound events and a table of devices that were reported.
abbrev pub Sound {ℓ} :
    {S : Type ℓ}
    → (S → HashMap ℕ String)
    → List DeviceEvent
    → Option (S × List DeviceEvent)
    → Type 0
Sound device_table seen none = Unit
Sound device_table seen (some (s, events)) =
    IsSound seen events × Known (after seen events) (device_table s)

abbrev pub SoundParsed : List DeviceEvent → Option Parsed → Type 0
SoundParsed seen none = Unit
SoundParsed seen (some (known, result)) =
    IsSound seen (to_events result) × Known (after seen (to_events result)) known

pub Sound-with_events :
    (seen events : List DeviceEvent) (r : Option (DeviceListenerParser × List DeviceEvent))
    → IsSound seen events
    → Sound (λ d. d.device_num_to_id) (after seen events) r
    → Sound (λ d. d.device_num_to_id) seen (with_events events r)
Sound-with_events seen events none h later = tt
Sound-with_events seen events (some (d, more)) h (later, known) = (
  IsSound-append seen events more h later,
  subst (λ s. Known s d.device_num_to_id) (sym (after-append seen events more)) known,
)
