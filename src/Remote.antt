-- ===== src/Remote.antt =====
-- include/mif/remote: calls of services over a connection, by proxies and stubs.
pub mod Errors
pub mod Packet
pub mod Archive
pub mod Stub
pub mod Manager
pub mod Client
pub mod Proxy
pub mod Call
mod Tests
