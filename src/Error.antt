-- ===== src/Error.antt =====
-- src/error.rs: the error type, its `Display`, and the result type of the fallible functions.
use mathlib.Core.Option.{Option, none, some}
use Prim.Native.String.{String, ◌++◌}

-- The payload of `io` is the `Display` text of the `std::io::Error` that it wraps.
pub data Error : Type 0 where
  io : String → Error
  plist : String → Error
  rpc : String → Error
  web_inspector : String → Error
  device_connection : String → Error
  tls : String → Error
  usbmuxd : String → Error
  port_bind : String → Error
  channel_closed : Error
  task_join : String → Error

-- `impl Display for Error`.
unfoldable pub display : Error → String
display (io e) = "I/O error: " ++ e
display (plist msg) = "plist error: " ++ msg
display (rpc msg) = "RPC error: " ++ msg
display (web_inspector msg) = "WebInspector error: " ++ msg
display (device_connection msg) = "device connection error: " ++ msg
display (tls msg) = "TLS error: " ++ msg
display (usbmuxd msg) = "usbmuxd error: " ++ msg
display (port_bind msg) = "port error: " ++ msg
display channel_closed = "internal channel closed"
display (task_join msg) = "async task error: " ++ msg

-- `std::result::Result`, over any error type.
pub data ResultOf {ℓ κ} (E : Type κ) (A : Type ℓ) : Type (ℓ ⊔ κ) where
  ok : A → ResultOf E A
  err : E → ResultOf E A

-- `error::Result`.
abbrev pub Result {ℓ} : Type ℓ → Type ℓ
Result A = ResultOf Error A

infixl 5 ◌>>=◌
abbrev pub ◌>>=◌ {ℓ κ} : {A : Type ℓ} {B : Type κ} → Result A → (A → Result B) → Result B
ok a >>= f = f a
err e >>= f = err e

-- `Option::ok_or`.
abbrev pub ok_or {ℓ} : {A : Type ℓ} → Option A → Error → Result A
ok_or (some a) e = ok a
ok_or none e = err e

-- `Result::map_err`.
abbrev pub map_err {ℓ κ} : {A : Type ℓ} {E : Type κ} → ResultOf E A → (E → Error) → Result A
map_err (ok a) f = ok a
map_err (err e) f = err (f e)

-- `std::error::Error::source`: the error that is wrapped, by its text.
unfoldable pub source : Error → Option String
source (io e) = some e
source _ = none

-- The `From` instances; the foreign error is given by its `Display` text.
abbrev pub from_io_error : String → Error
from_io_error e = io e

abbrev pub from_plist_error : String → Error
from_plist_error e = plist e

abbrev pub from_join_error : String → Error
from_join_error e = task_join e
