-- ===== src/IdeviceExt.antt =====
-- src/idevice_ext.rs: the connection to a device's WebInspector through libimobiledevice. What the
-- foreign calls give is a record; what is allocated and freed by them is a log.
pub mod Version
pub mod Frees
pub mod Tls
pub mod Tests
use mathlib.Core.Option
use Prim.Native.Char.{Char, code}
use Prim.Native.String.{◌++◌ as concat}
use ios_webkit_debug_proxy_r.Base.{
  ℕ, zero, suc, ◌+◌, String, Bool, true, false, not, ◌&&◌, ◌||◌, Option, none, some, List, [], ◌∷◌,
  ◌++◌, ◌==◌, nat_eq, if◌then◌else◌, ascii,
}
use ios_webkit_debug_proxy_r.Base.Decimal.{to_string}
use ios_webkit_debug_proxy_r.Base.Int.{ℤ, pos, negsuc, parse_u32}
use ios_webkit_debug_proxy_r.Device.{result_os_version}
use ios_webkit_debug_proxy_r.Error.{
  Error, device_connection, task_join, Result, ResultOf, ok, err, ◌>>=◌, map_err,
}
use ios_webkit_debug_proxy_r.Proxy.Devices.{DeviceConnection}

-- What is freed by hand: the handles of the library, and for a key the plist node and its text.
pub data Handle : Type 0 where
  phone : Handle
  client : Handle
  connection : Handle
  service : Handle
  node : String → Handle
  val : String → Handle
  record_data : Handle

pub data Call : Type 0 where
  allocates : Handle → Call
  frees : Handle → Call

pub record LockdownServiceDescriptor : Type 0 where
  pub port : ℕ
  pub ssl_enabled : ℕ

-- What the foreign calls give in one run. `get_value` gives a node, if any, with its text, if any;
-- `start_service` a code and a descriptor, if it is not null; `get_fd` the descriptor of the socket.
pub record Ffi : Type 0 where
  pub new_with_options : Bool
  pub handshake : ℤ
  pub get_value : String → Option (Option String)
  pub start_service : ℤ × Option LockdownServiceDescriptor
  pub connect : Bool
  pub get_fd : Option ℕ

pub record FfiConnectionResult : Type 0 where
  pub fd : ℕ
  pub device_id : String
  pub device_name : String
  pub device_os_version : ℕ
  pub ssl_enabled : Bool

abbrev pub int_to_string : ℤ → String
int_to_string (pos n) = to_string n
int_to_string (negsuc n) = concat "-" (to_string (suc n))

-- The code is -n.
abbrev pub is_minus : ℕ → ℤ → Bool
is_minus n (pos m) = false
is_minus n (negsuc m) = suc m == n

unfoldable pub lockdownd_error_string : ℤ → String
lockdownd_error_string code =
    if is_minus 17 code
    then "Please enter the passcode on the device and try again"
    else if is_minus 18 code
    then "Please accept the trust dialog on the device screen and try again"
    else if is_minus 19 code
    then "User denied the trust dialog, please re-plug the device and try again"
    else if is_minus 6 code || is_minus 15 code
    then "Device is not paired with this host, please re-plug the device and try again"
    else concat "Cannot connect to lockdownd, error code: " (int_to_string code)

-- A character goes in front of the first part.
abbrev pub onto_first : Char → List String → List String
onto_first c [] = String.◌∷◌ c "" ∷ []
onto_first c (s ∷ rest) = String.◌∷◌ c s ∷ rest

-- `split('.')`
unfoldable pub split_dots : String → List String
split_dots String.[] = "" ∷ []
split_dots (String.◌∷◌ c s) =
    let rest : List String = split_dots s in if code c == b'.' then "" ∷ rest else onto_first c rest

-- `filter_map(|s| s.parse().ok())`
unfoldable pub parse_parts : List String → List ℕ
parse_parts [] = []
parse_parts (s ∷ rest) = elim (parse_u32 (ascii s)) [
  | some n ↦ n ∷ parse_parts rest
  | none ↦ parse_parts rest
]

abbrev pub os_version_of : String → ℕ
os_version_of version = result_os_version (parse_parts (split_dots version))

abbrev pub unwrap_or {ℓ} : {A : Type ℓ} → Option A → A → A
unwrap_or (some a) d = a
unwrap_or none d = d

-- The calls that a value takes.
unfoldable pub value_calls : String → Option (Option String) → List Call
value_calls key none = []
value_calls key (some none) = allocates (node key) ∷ frees (node key) ∷ []
value_calls key (some (some text)) =
    allocates (node key) ∷ allocates (val key) ∷ frees (val key) ∷ frees (node key) ∷ []

abbrev pub value_of : Option (Option String) → Option String
value_of v = Option.bind v (λ text. text)

abbrev pub is_zero : ℤ → Bool
is_zero (pos n) = n == 0
is_zero (negsuc n) = false

abbrev pub fail {ℓ} : {A : Type ℓ} → List Call → String → List Call × Result A
fail calls message = (calls, err (device_connection message))

module _ (f : Ffi) where
  -- The descriptor, if the service is started: the code is 0 and the port is not.
  unfoldable pub started : Option LockdownServiceDescriptor
  started = elim f.start_service.1 [
    | none ↦ none
    | some descriptor ↦
        if not (is_zero f.start_service.0) || descriptor.port == 0 then none else some descriptor
  ]

  abbrev pub service_calls : List Call
  service_calls = elim f.start_service.1 [ none ↦ [] | some descriptor ↦ allocates service ∷ [] ]

  -- From the socket on; the client is freed before, the connection is not closed.
  unfoldable pub take_fd : LockdownServiceDescriptor → List Call × Result FfiConnectionResult
  take_fd descriptor = elim f.get_fd [
    | none ↦ fail (frees phone ∷ []) "Cannot get connection file descriptor"
    | some fd ↦ (
      frees connection ∷ frees phone ∷ [],
      ok (record {
        fd = fd;
        device_id = unwrap_or (value_of (f.get_value "UniqueDeviceID")) "";
        device_name = unwrap_or (value_of (f.get_value "DeviceName")) "";
        device_os_version = elim (value_of (f.get_value "ProductVersion")) [
          | some version ↦ os_version_of version
          | none ↦ 0
        ];
        ssl_enabled = descriptor.ssl_enabled == 1;
      }),
    )
  ]

  -- From the start of the service on.
  unfoldable pub connect_service : List Call × Result FfiConnectionResult
  connect_service = elim started [
    | none ↦ fail (frees client ∷ frees phone ∷ []) (
        concat "Cannot start com.apple.webinspector service, error code: "
          (int_to_string f.start_service.0))
    | some descriptor ↦
        if f.connect
        then (allocates connection ∷ frees client ∷ (take_fd descriptor).0, (take_fd descriptor).1)
        else fail (frees client ∷ frees phone ∷ []) "idevice_connect failed"
  ]

  -- The calls and the result of a run.
  unfoldable pub connect_to_device_sync : List Call × Result FfiConnectionResult
  connect_to_device_sync =
      if not f.new_with_options
      then fail [] "Device not found, please make sure it is connected"
      else if not (is_zero f.handshake)
      then fail (allocates phone ∷ frees phone ∷ []) (lockdownd_error_string f.handshake)
      else (
        allocates phone
            ∷ allocates client
            ∷ (value_calls "UniqueDeviceID" (f.get_value "UniqueDeviceID")
                ++ (value_calls "DeviceName" (f.get_value "DeviceName")
                    ++ (value_calls "ProductVersion" (f.get_value "ProductVersion")
                        ++ (service_calls ++ connect_service.0)))),
        connect_service.1,
      )

-- What the host makes of the socket: the errors of the two conversions, and the TLS stream over it.
pub record Host : Type 0 where
  pub join_error : Option String
  pub set_nonblocking : Option String
  pub from_std : Option String
  pub plain : ℕ → ℕ
  pub enable_ssl_async : String → ℕ → Result ℕ

abbrev pub check : Option String → (String → Error) → Result (Unit {0})
check none error = ok tt
check (some e) error = err (error e)

unfoldable pub connect_to_device : Ffi → Host → Result DeviceConnection
connect_to_device f h = do
  joined ← check h.join_error (λ e. task_join (concat "FFI task failed: " e))
  ffi_result ← (connect_to_device_sync f).1
  blocking ←
      check h.set_nonblocking (λ e. device_connection (concat "Failed to set non-blocking: " e))
  converted ←
      check h.from_std (λ e. device_connection (concat "Failed to convert to tokio TcpStream: " e))
  stream ←
      (if ffi_result.ssl_enabled
        then h.enable_ssl_async ffi_result.device_id (h.plain ffi_result.fd)
        else ok (h.plain ffi_result.fd))
  ok (record {
    stream = stream;
    device_id = ffi_result.device_id;
    device_name = ffi_result.device_name;
    device_os_version = ffi_result.device_os_version;
  })
