-- ===== src/Tests.antt =====
-- The theorems of the library, applied to concrete inputs.
mod WebSocket
mod Codec
mod Session
mod Cache
mod Transport
mod Client
mod Replay
mod Headers
mod Http1
mod ByteStream
mod Http2
