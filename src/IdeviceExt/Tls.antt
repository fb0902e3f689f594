-- ===== src/IdeviceExt/Tls.antt =====
-- src/idevice_ext.rs: the TLS configuration of a device's pairing, build_tls_config. The crates that
-- read the certificates and make the configuration are parameters.
use mathlib.Core.Option
use Prim.Native.String.{◌++◌ as concat}
use ios_webkit_debug_proxy_r.Base.{
  String, Option, List, [], ◌∷◌, Bytes, is_empty, Bool-cases, inl, inr, if◌then◌else◌,
}
use ios_webkit_debug_proxy_r.Error.{tls, plist, Result, ResultOf, ok, err, ◌>>=◌, ok_or, map_err}
use ios_webkit_debug_proxy_r.Plist.{Plist}
use ios_webkit_debug_proxy_r.IdeviceExt.{Handle, record_data, Call, allocates, frees}
use ios_webkit_debug_proxy_r.IdeviceExt.Frees.{Runs, done, allocated, freed, here}

-- `rustls_pemfile` and `rustls`; an error is given by its text.
pub record Rustls : Type 1 where
  pub CertificateDer : Type 0
  pub PrivateKey : Type 0
  pub ClientConfig : Type 0
  pub certs : Bytes → ResultOf String (List CertificateDer)
  pub private_key : Bytes → ResultOf String (Option PrivateKey)
  pub with_client_auth_cert : List CertificateDer → PrivateKey → ResultOf String ClientConfig

-- What `usbmuxd_read_pair_record` gives: a failure, a null pointer, or the data.
pub data PairRecord : Type 0 where
  unread : PairRecord
  null_data : PairRecord
  data_of : Bytes → PairRecord

module _ (p : Plist) (r : Rustls) where
  open p use {Value, Dictionary, as_data, as_dictionary, get, from_bytes}

  abbrev pub required : Dictionary → String → Result Bytes
  required dict key = ok_or (Option.bind (get dict key) as_data) (tls (concat "Missing " key))

  -- From the record's plist on.
  unfoldable pub config_of_plist : Value → Result r.ClientConfig
  config_of_plist record_plist = do
    dict ← ok_or (as_dictionary record_plist) (plist "Pair record is not a dictionary")
    root_cert_data ← required dict "RootCertificate"
    root_privkey_data ← required dict "RootPrivateKey"
    cert_chain ←
        map_err (r.certs root_cert_data) (λ e. tls (concat "Certificate parsing failed: " e))
    chain ← (if is_empty cert_chain then err (tls "No valid certificate found") else ok cert_chain)
    key ←
        map_err (r.private_key root_privkey_data)
          (λ e. tls (concat "Private key parsing failed: " e))
    privkey ← ok_or key (tls "No valid private key found")
    map_err (r.with_client_auth_cert chain privkey)
        (λ e. tls (concat "rustls configuration failed: " e))

  -- The record's data are freed once they are parsed.
  unfoldable pub parse_record : ResultOf String Value → List Call × Result r.ClientConfig
  parse_record (ok record_plist) =
      (allocates record_data ∷ frees record_data ∷ [], config_of_plist record_plist)
  parse_record (err e) =
      (allocates record_data ∷ [], err (plist (concat "Pair record parsing failed: " e)))

  -- The calls that allocate and free, and the result.
  unfoldable pub build_tls_config : PairRecord → List Call × Result r.ClientConfig
  build_tls_config unread = ([], err (tls "Cannot read pair record"))
  build_tls_config null_data = ([], err (tls "Pair record is empty"))
  build_tls_config (data_of bytes) =
      if is_empty bytes
      then (allocates record_data ∷ [], err (tls "Pair record is empty"))
      else parse_record (from_bytes bytes)

  -- The record's data that are never freed: those that are empty or no plist.
  abbrev pub unparsed : ResultOf String Value → List Handle
  unparsed (ok record_plist) = []
  unparsed (err e) = record_data ∷ []

  abbrev pub record_left : PairRecord → List Handle
  record_left unread = []
  record_left null_data = []
  record_left (data_of bytes) =
      if is_empty bytes then record_data ∷ [] else unparsed (from_bytes bytes)

  parse_record-Runs : (v : ResultOf String Value) → Runs [] (parse_record v).0 (unparsed v)
  unfolding parse_record
  parse_record-Runs (ok record_plist) = allocated (freed here done)
  parse_record-Runs (err e) = allocated done

  -- build_tls_config frees the data of the pair record exactly if they are not empty and parsed as
  -- a plist: only data that are empty or no plist are left.
  pub build_tls_config-Runs :
      (pair : PairRecord) → Runs [] (build_tls_config pair).0 (record_left pair)
  unfolding build_tls_config
  build_tls_config-Runs unread = done
  build_tls_config-Runs null_data = done
  build_tls_config-Runs (data_of bytes) = elim (Bool-cases (is_empty bytes)) [
    | inl empty ↦ rw empty (allocated done)
    | inr full ↦ rw full (parse_record-Runs (from_bytes bytes))
  ]
