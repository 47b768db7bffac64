-- ===== src/Http/Http1.antt =====
-- src/runtime/http_plane/http1_fast_path.rs: the fast path of HTTP/1 for downstream connections.
pub mod Hex
pub mod ChunkSize
pub mod Lines
pub mod Body
pub mod Writer
