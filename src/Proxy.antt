-- ===== src/Proxy.antt =====
-- src/proxy.rs: the proxy core. State has its records, Pages a device's page table, Devices the
-- device table, Sockets and Messages the handlers of the two kinds of messages, Run the event loop.
pub mod State
pub mod Pages
pub mod Devices
pub mod Simulator
pub mod Sockets
pub mod Messages
pub mod Invariant
pub mod Run
pub mod Isolation
pub mod Tests
