-- ===== src/Http.antt =====
-- The HTTP planes: how request bodies are read from a connection and response bodies written to it.
pub mod ByteStream
pub mod Http1
pub mod Http2
pub mod Http3
pub mod Version
pub mod WebSocket
