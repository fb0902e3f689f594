-- ===== src/Lib.antt =====
-- ios-webkit-debug-proxy, a proxy between the WebInspector of iOS devices and debugging clients that
-- speak over WebSockets, modelled part by part.
--
-- A device is attached, its WebInspector is connected, and the proxy gives it a port with its own
-- server. The device reports its apps and pages; a client opens a page by its number; the proxy then
-- carries messages both ways until the client closes or the device goes.
--
-- - Base (Tests, Lists, Dict, Decimal, Int): Boolean tests, lists of bytes, `HashMap` as an
--   association list, numbers as text, signed integers and what is parsed as a number.
-- - Error: src/error.rs, the error type, its text and `Result`.
-- - Plist: the `plist` crate, which the program only calls, as a record of its types and calls, with
--   its documented behaviour as `Laws`. Plist/Sample is one instance, for the examples only.
-- - Device: src/lib.rs, the device and page records that a listener gets, and OS versions
--   (parse_device_os_version, and the packing of src/idevice_ext.rs).
-- - Rpc: src/rpc.rs, the messages to a device (RpcSender::build_*), and in Rpc/Parse those from it
--   (parse_rpc_message). `new_uuid` is an argument of what uses it.
-- - WebInspector: src/webinspector.rs, the codec (encode_plist, parse_length, parse_plist,
--   decode_body); WebInspector/Reader has wi_read_loop and send_plist, WebInspector/Writer
--   wi_write_loop, WebInspector/Spawn the start of the two tasks (spawn_webinspector).
-- - DeviceListener: src/device_listener.rs, the packets of usbmuxd (on_recv, parse_packet,
--   parse_plist_message). `none` is a call that panics or loops for ever. DeviceListener/Connection
--   has the request, a connection and the task that connects again (create_listen_packet,
--   run_device_listener, spawn_device_listener).
-- - HttpServer: src/http_server.rs, the state that is shared with the proxy. Its children:
--   Connection, a client's WebSocket (handle_ws_upgrade, handle_ws_connection); Texts, the calls of
--   `str`; Responses, what handlers answer and the answers for what is not found; Routes, which
--   handler answers a path (create_device_router and the two others); Pages, the lists of pages and
--   devices (build_pages_html, build_pages_json, handle_json, handle_device_list_json); Static, the
--   proxy of the frontend's files (handle_devtools_static).
-- - IdeviceExt: src/idevice_ext.rs, the connection to a device with what its foreign calls allocate
--   and free (connect_to_device_sync, connect_to_device), in IdeviceExt/Tls the TLS configuration
--   (build_tls_config), in IdeviceExt/Version the packed version. What the foreign calls give is an
--   argument, the log of calls a result.
-- - PortConfig: src/port_config.rs, the rules for the ports (add_line, add_file, find, select_port)
--   on the bytes of a line; what the pattern captures of a rule is a parameter.
-- - Main: src/main.rs, from the parsed arguments to the bridge that is run.
-- - Proxy: src/proxy.rs. State has the records, Pages what a listing does to a page table, Devices
--   connect_device and disconnect_device, Sockets the WebSocket side, Messages the messages of a
--   device, Run the event loop, Simulator the connection to a simulator (connect_sim_webinspector).
--   A handler is a function from a world to a world: the device table, the shared device list, and a
--   log of what was sent, cancelled, served and told to the listener.
--   A write through `get_mut` is Dict.modify, one through `values_mut().find` Dict.modify_first.
--   What a connection attempt finds outside (free ports, devices, fresh identifiers) is an argument.
--
-- The numbers of pages are 32 bits wide and wrap, as in a release build; a port is a number, and the
-- range of ports has its end excluded. The loop of encode_plist has as fuel one more than the
-- message's length, which is enough since each round takes at least one byte. The read loop counts
-- its waits: at zero its token has fired. The loop of on_recv has one more round than there are bytes,
-- which is enough for each call that returns, as a round that goes on takes a byte or more.
--
-- A HashMap's order of iteration is that of the association list, which the proofs do not fix: a
-- statement holds of any order that insertions and removals leave.
--
-- The loop of add_line has one more round than the line has bytes, which is enough since each round
-- that goes on takes a comma; out of fuel it has no result. A connection to usbmuxd or a client
-- is the list of what comes in; it still waits where the list ends.
--
-- Not modelled: what only moves bytes or calls other libraries: the sockets, TLS streams and channels
-- between tasks, axum's dispatch and messages, the command line's parser, the log, the signal
-- handler. serde_json, the url crate, reqwest, rustls, regex, plist and libimobiledevice are
-- parameters. A send that is only logged when it fails is an effect in the log, whether or not the
-- channel still takes it.
pub mod Base
pub mod Error
pub mod Plist
pub mod Device
pub mod Rpc
pub mod PortConfig
pub mod HttpServer
pub mod WebInspector
pub mod DeviceListener
pub mod Proxy
pub mod Main
pub mod IdeviceExt
