-- ===== src/Transport.antt =====
-- src/abi_impl/transport/state.rs: the state of the TCP, UDP and TLS connections of the proxy.
pub mod Handles
pub mod TcpFlow
pub mod Sockets
pub mod Tls
pub mod Replay
