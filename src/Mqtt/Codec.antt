-- ===== src/Mqtt/Codec.antt =====
-- src/abi_impl/mqtt/codec.rs: MQTT 5 control packets as bytes. This file has the data.
-- A byte is a number below 256, a `&str` the list of its UTF-8 bytes, a `u16` a number below 65536.
use pd_edge.Common.{ℕ, Bool, List, Option}
use pd_edge.Common.Bytes.{Text}
pub mod VarInt
pub mod Fields
pub mod Encode
pub mod Decode
pub mod Safety
pub mod Streaming
pub mod RoundTrip

pub data MqttIncomingPacket : Type 0 where
  conn_ack : (reason_code : ℕ) → MqttIncomingPacket
  publish :
      (topic : Text) (payload : List ℕ) (qos : ℕ) (retain dup : Bool) (packet_id : Option ℕ)
      → MqttIncomingPacket
  pub_ack : (packet_id reason_code : ℕ) → MqttIncomingPacket
  sub_ack : (packet_id : ℕ) (reason_codes : List ℕ) → MqttIncomingPacket
  unsub_ack : (packet_id : ℕ) (reason_codes : List ℕ) → MqttIncomingPacket
  ping_resp : MqttIncomingPacket
  disconnect : (reason_code : ℕ) → MqttIncomingPacket

-- The `field` that the error messages name.
pub data FieldName : Type 0 where
  publish_topic publish_packet_id puback_packet_id suback_packet_id unsuback_packet_id : FieldName

-- Each message of a `VmError::HostError` that the codec builds.
pub data CodecError : Type 0 where
  remaining_length_exceeds_maximum : (value : ℕ) → CodecError
  variable_length_exceeds_four_bytes : CodecError
  string_too_long : (len : ℕ) → CodecError
  field_truncated : FieldName → CodecError
  field_not_utf8 : FieldName → CodecError
  properties_length_truncated properties_truncated : CodecError
  connack_truncated connack_properties_malformed : CodecError
  publish_properties_malformed puback_properties_malformed : CodecError
  suback_properties_malformed unsuback_properties_malformed : CodecError
  qos_not_supported : CodecError
  unsupported_packet_type : (packet_type : ℕ) → CodecError
