-- ===== src/IdeviceExt/Frees.antt =====
-- What a run of connect_to_device_sync frees, and what it leaves.
use ios_webkit_debug_proxy_r.Base.{
  String, inl, inr, sym, subst, not, Option, none, some, List, [], ◌∷◌, ◌++◌, append-nil, nat_eq,
  if◌then◌else◌, Option-cases, Bool-cases,
}
use ios_webkit_debug_proxy_r.IdeviceExt.{
  Handle, phone, client, connection, service, Call, allocates, frees, Ffi, value_calls, is_zero,
  started, service_calls, take_fd, connect_service, connect_to_device_sync,
}

-- A handle that is held is taken out once.
pub data Removes (h : Handle) : List Handle → List Handle → Type 0 where
  here : {held : List Handle} → Removes h (h ∷ held) held
  there :
      {k : Handle} {held left : List Handle} → Removes h held left → Removes h (k ∷ held) (k ∷ left)

-- From the handles that are held to those that are held behind the calls: what is freed was held.
pub data Runs : List Handle → List Call → List Handle → Type 0 where
  done : {held : List Handle} → Runs held [] held
  allocated :
      {h : Handle} {held last : List Handle} {calls : List Call}
      → Runs (h ∷ held) calls last
      → Runs held (allocates h ∷ calls) last
  freed :
      {h : Handle} {held left last : List Handle} {calls : List Call}
      → Removes h held left
      → Runs left calls last
      → Runs held (frees h ∷ calls) last

Runs-append :
    {held middle last : List Handle} {calls more : List Call}
    → Runs held calls middle
    → Runs middle more last
    → Runs held (calls ++ more) last
Runs-append done later = later
Runs-append (allocated first) later = allocated (Runs-append first later)
Runs-append (freed out first) later = freed out (Runs-append first later)

value_calls-Runs :
    (held : List Handle) (key : String) (v : Option (Option String))
    → Runs held (value_calls key v) held
unfolding value_calls
value_calls-Runs held key none = done
value_calls-Runs held key (some none) = allocated (freed here done)
value_calls-Runs held key (some (some text)) = allocated (allocated (freed here (freed here done)))

-- What is never freed: the descriptor of the service, if there is one, and the connection, if its
-- socket is not given.
abbrev service_left : Ffi → List Handle
service_left f = elim f.start_service.1 [ none ↦ [] | some descriptor ↦ service ∷ [] ]

abbrev connection_left : Ffi → List Handle
connection_left f = elim (started f) [
  | none ↦ []
  | some descriptor ↦
      if f.connect then elim f.get_fd [ none ↦ connection ∷ [] | some fd ↦ [] ] else []
]

abbrev pub leaked : Ffi → List Handle
leaked f =
    if not f.new_with_options
    then []
    else if not (is_zero f.handshake)
    then []
    else connection_left f ++ service_left f

Removes-below :
    (h : Handle) (below rest : List Handle) → Removes h (below ++ h ∷ rest) (below ++ rest)
Removes-below h [] rest = here
Removes-below h (k ∷ below) rest = there (Removes-below h below rest)

-- The client and the phone are freed, whatever stands above them.
last_frees :
    (below : List Handle)
    → Runs (below ++ client ∷ phone ∷ []) (frees client ∷ frees phone ∷ []) below
last_frees below = freed (Removes-below client below (phone ∷ [])) (
    freed (Removes-below phone below [])
      (subst (λ held. Runs held [] below) (sym (append-nil below)) done))

module _ (f : Ffi) where
  service_calls-Runs : (held : List Handle) → Runs held (service_calls f) (service_left f ++ held)
  service_calls-Runs held = elim (Option-cases f.start_service.1) [
    | inl null ↦ rw null done
    | inr (descriptor, given) ↦ rw given (allocated done)
  ]

  connect_service-Runs :
      (below : List Handle)
      → Runs (below ++ client ∷ phone ∷ []) (connect_service f).0 (connection_left f ++ below)
  unfolding connect_service take_fd
  connect_service-Runs below = elim (Option-cases (started f)) [
    | inl refused ↦ rw (refused, connect_service, ◌++◌) (last_frees below)
    | inr (descriptor, given) ↦ elim (Bool-cases f.connect) [
      | inr failed ↦ rw (given, failed, connect_service, ◌++◌) (last_frees below)
      | inl connected ↦ elim (Option-cases f.get_fd) [
        | inl absent ↦
            rw (given, connected, absent, connect_service, take_fd, ◌++◌)
              (allocated (
                freed (there (Removes-below client below (phone ∷ []))) (
                  freed (there (Removes-below phone below [])) (
                    subst (λ held. Runs (connection ∷ held) [] (connection ∷ below))
                      (sym (append-nil below)) done))))
        | inr (fd, got) ↦
            rw (given, connected, got, connect_service, take_fd, ◌++◌)
              (allocated (
                freed (there (Removes-below client below (phone ∷ []))) (
                  freed here (
                    freed (Removes-below phone below [])
                      (subst (λ held. Runs held [] below) (sym (append-nil below)) done)))))
      ]
    ]
  ]

  service_Runs :
      Runs
        (client ∷ phone ∷ [])
        (service_calls f ++ (connect_service f).0)
        (connection_left f ++ service_left f)
  service_Runs =
      Runs-append (service_calls-Runs (client ∷ phone ∷ [])) (connect_service-Runs (service_left f))

  -- Whatever the foreign calls give, connect_to_device_sync frees only handles that it holds, none
  -- twice, and in the end it holds nothing but two handles: the descriptor of the service, if one
  -- was given, and the connection, if its socket could not be read.
  pub connect_to_device_sync-Runs : Runs [] (connect_to_device_sync f).0 (leaked f)
  unfolding connect_to_device_sync connect_service take_fd started
  connect_to_device_sync-Runs = elim (Bool-cases f.new_with_options) [
    | inr lost ↦ rw (lost, connect_to_device_sync) done
    | inl found ↦ elim (Bool-cases (is_zero f.handshake)) [
      | inr refused ↦ rw (found, refused, connect_to_device_sync) (allocated (freed here done))
      | inl shaken ↦
          rw (found, shaken, connect_to_device_sync)
            (allocated (
              allocated (
                Runs-append (value_calls-Runs _ "UniqueDeviceID" (f.get_value "UniqueDeviceID")) (
                  Runs-append (value_calls-Runs _ "DeviceName" (f.get_value "DeviceName")) (
                    Runs-append (value_calls-Runs _ "ProductVersion" (f.get_value "ProductVersion"))
                      service_Runs)))))
    ]
  ]
