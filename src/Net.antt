-- ===== src/Net.antt =====
-- The network layer: the clients of a connection (net/client, net/clients) and the HTTP stack.
pub mod Framing
pub mod Client
pub mod Chain
pub mod Tcp
pub mod Http
