-- ===== src/IdeviceExt/Tests.antt =====
-- A connection whose socket is not given, a version, and a pair record that is no plist.
use ios_webkit_debug_proxy_r.Base.{◌≡◌, refl, true, none, some, [], ◌∷◌, arith, nat_eq, Bytes}
use ios_webkit_debug_proxy_r.Base.Int.{pos}
use ios_webkit_debug_proxy_r.Device.{parse_device_os_version}
use ios_webkit_debug_proxy_r.Error.{ok}
use ios_webkit_debug_proxy_r.Plist.Sample.{sample}
use ios_webkit_debug_proxy_r.IdeviceExt.{
  Ffi, connection, service, started, connect_to_device_sync, os_version_of,
}
use ios_webkit_debug_proxy_r.IdeviceExt.Frees.{Runs, leaked, connect_to_device_sync-Runs}
use ios_webkit_debug_proxy_r.IdeviceExt.Version.{dotted, parse_device_os_version-os_version_of}
use ios_webkit_debug_proxy_r.IdeviceExt.Tls.{
  Rustls, data_of, build_tls_config, record_left, build_tls_config-Runs,
}

abbrev ffi : Ffi
ffi = record {
  new_with_options = true;
  handshake = pos 0;
  get_value = λ key. some (some "17.2.3");
  start_service = (pos 0, some (record { port = 50000; ssl_enabled = 1 }));
  connect = true;
  get_fd = none;
}

ffi-leaked : leaked ffi ≡ connection ∷ service ∷ []
unfolding started
ffi-leaked = refl

connect_to_device_sync-Runs_example : Runs [] (connect_to_device_sync ffi).0 (leaked ffi)
connect_to_device_sync-Runs_example = connect_to_device_sync-Runs ffi

parse_device_os_version-os_version_of_example :
    parse_device_os_version (os_version_of (dotted 17 2 3)) ≡ (17, 2, 3)
parse_device_os_version-os_version_of_example =
    parse_device_os_version-os_version_of 17 2 3 (omega arith) (omega arith) (omega arith)

abbrev rustls : Rustls
rustls = record {
  CertificateDer = Bytes;
  PrivateKey = Bytes;
  ClientConfig = Bytes;
  certs = λ pem. ok (pem ∷ []);
  private_key = λ pem. ok (some pem);
  with_client_auth_cert = λ chain key. ok key;
}

build_tls_config-Runs_example :
    Runs []
      (build_tls_config sample rustls (data_of (1 ∷ 2 ∷ []))).0
      (record_left sample rustls (data_of (1 ∷ 2 ∷ [])))
build_tls_config-Runs_example = build_tls_config-Runs sample rustls (data_of (1 ∷ 2 ∷ []))
