-- ===== src/Mqtt/Codec/RoundTrip.antt =====
-- codec.rs: `decode_packet` on what the encoders wrote.
pub mod Frame
pub mod Fields
pub mod Packets
