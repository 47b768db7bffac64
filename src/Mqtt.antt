-- ===== src/Mqtt.antt =====
-- src/abi_impl/mqtt: the MQTT 5 client of the proxy.
pub mod Codec
pub mod Session
pub mod Client
