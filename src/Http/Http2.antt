-- ===== src/Http/Http2.antt =====
-- src/abi_impl/http2: what is kept of HTTP/2 sessions with upstreams.
pub mod Model
pub mod Session
