-- ===== src/Mqtt/Codec/Decode.antt =====
-- codec.rs: `decode_packet`, with one function for each arm of its `match` on the packet type.
use pd_edge.Common.{
  true, arith, false, ◌≡◌, ℕ, ◌+◌, ◌/◌, List, [], ◌∷◌, Option, none, some, not, length, ltb, leb,
  ◌==◌, if◌then◌else◌, bit_and,
}
use pd_edge.Common.Outcome.{Outcome, ok, err, ◌>>=◌, ◌>>◌, guard, index, slice, slice_from}
use pd_edge.Mqtt.Codec.{
  MqttIncomingPacket, conn_ack, publish, pub_ack, sub_ack, unsub_ack, ping_resp, disconnect,
  CodecError, connack_truncated, connack_properties_malformed, publish_properties_malformed,
  puback_properties_malformed, suback_properties_malformed, unsuback_properties_malformed,
  qos_not_supported, unsupported_packet_type, publish_topic, publish_packet_id, puback_packet_id,
  suback_packet_id, unsuback_packet_id,
}
use pd_edge.Mqtt.Codec.VarInt.{decode_variable_int}
use pd_edge.Mqtt.Codec.Fields.{decode_u16, decode_utf8, decode_properties_length}

unfoldable pub decode_conn_ack : List ℕ → Outcome CodecError MqttIncomingPacket
decode_conn_ack body = do
  guard (leb 2 (length body)) connack_truncated
  (properties_len, offset) ← decode_properties_length body 2
  guard (offset + properties_len == length body) connack_properties_malformed
  reason_code ← index body 1
  ok (conn_ack reason_code)

-- The packet id is there if the quality of service is above 0.
unfoldable pub decode_packet_id : List ℕ → ℕ → ℕ → Outcome CodecError (Option ℕ × ℕ)
decode_packet_id body offset qos =
    if ltb 0 qos
    then (do
      (packet_id, offset') ← decode_u16 body offset publish_packet_id
      ok (some packet_id, offset'))
    else ok (none, offset)

unfoldable pub decode_publish : List ℕ → ℕ → Outcome CodecError MqttIncomingPacket
decode_publish body flags = do
  let retain = not (bit_and flags 0x01 == 0)
  let qos = bit_and (flags / 2) 0x03
  let dup = not (bit_and flags 0x08 == 0)
  guard (leb qos 1) qos_not_supported
  (topic, topic_end) ← decode_utf8 body 0 publish_topic
  (packet_id, id_end) ← decode_packet_id body topic_end qos
  (properties_len, properties) ← decode_properties_length body id_end
  let offset = properties + properties_len
  guard (leb offset (length body)) publish_properties_malformed
  payload ← slice_from body offset
  ok (publish topic payload qos retain dup packet_id)

-- The reason code is optional, and the properties behind it.
unfoldable pub decode_pub_ack_reason : List ℕ → ℕ → Outcome CodecError (ℕ × ℕ)
decode_pub_ack_reason body offset =
    if ltb offset (length body)
    then (do reason ← index body offset; ok (reason, offset + 1))
    else ok (0, offset)

unfoldable pub check_pub_ack_properties : List ℕ → ℕ → Outcome CodecError (Unit {0})
check_pub_ack_properties body offset =
    if ltb offset (length body)
    then (do
      (properties_len, properties) ← decode_properties_length body offset
      guard (properties + properties_len == length body) puback_properties_malformed)
    else ok tt

unfoldable pub decode_pub_ack : List ℕ → Outcome CodecError MqttIncomingPacket
decode_pub_ack body = do
  (packet_id, id_end) ← decode_u16 body 0 puback_packet_id
  (reason_code, offset) ← decode_pub_ack_reason body id_end
  check_pub_ack_properties body offset
  ok (pub_ack packet_id reason_code)

unfoldable pub decode_sub_ack : List ℕ → Outcome CodecError MqttIncomingPacket
decode_sub_ack body = do
  (packet_id, id_end) ← decode_u16 body 0 suback_packet_id
  (properties_len, properties) ← decode_properties_length body id_end
  let offset = properties + properties_len
  guard (leb offset (length body)) suback_properties_malformed
  reason_codes ← slice_from body offset
  ok (sub_ack packet_id reason_codes)

unfoldable pub decode_unsub_ack : List ℕ → Outcome CodecError MqttIncomingPacket
decode_unsub_ack body = do
  (packet_id, id_end) ← decode_u16 body 0 unsuback_packet_id
  (properties_len, properties) ← decode_properties_length body id_end
  let offset = properties + properties_len
  guard (leb offset (length body)) unsuback_properties_malformed
  reason_codes ← slice_from body offset
  ok (unsub_ack packet_id reason_codes)

-- `body.first().copied().unwrap_or(0)`
unfoldable pub decode_disconnect : List ℕ → MqttIncomingPacket
decode_disconnect [] = disconnect 0
decode_disconnect (reason_code ∷ rest) = disconnect reason_code

-- `match packet_type`
unfoldable pub decode_body : ℕ → ℕ → List ℕ → Outcome CodecError MqttIncomingPacket
decode_body packet_type flags body =
    if packet_type == 2
    then decode_conn_ack body
    else if packet_type == 3
    then decode_publish body flags
    else if packet_type == 4
    then decode_pub_ack body
    else if packet_type == 9
    then decode_sub_ack body
    else if packet_type == 11
    then decode_unsub_ack body
    else if packet_type == 13
    then ok ping_resp
    else if packet_type == 14
    then ok (decode_disconnect body)
    else err (unsupported_packet_type packet_type)

-- What follows the remaining length: `none` asks for more input.
unfoldable pub decode_frame :
    List ℕ → (header : ℕ) → Option (ℕ × ℕ) → Outcome CodecError (Option (MqttIncomingPacket × ℕ))
decode_frame bytes header none = ok none
decode_frame bytes header (some (remaining_len, encoded_len)) =
    let total_len = 1 + encoded_len + remaining_len in
    if ltb (length bytes) total_len then ok none else (do
      body ← slice bytes (1 + encoded_len) total_len
      packet ← decode_body (header / 16) (bit_and header 0x0f) body
      ok (some (packet, total_len)))

-- The packet at the front of the bytes, and how many bytes it takes.
unfoldable pub decode_packet : List ℕ → Outcome CodecError (Option (MqttIncomingPacket × ℕ))
decode_packet bytes = if ltb (length bytes) 2 then ok none else (do
  header ← index bytes 0
  rest ← slice_from bytes 1
  found ← decode_variable_int rest
  decode_frame bytes header found)

-- With two bytes there is a length to read.
pub decode_packet-cons :
    (header b : ℕ) (bytes : List ℕ)
    → decode_packet (header ∷ b ∷ bytes)
      ≡ (decode_variable_int (b ∷ bytes) >>= decode_frame (header ∷ b ∷ bytes) header)
unfolding decode_packet
decode_packet-cons header b bytes =
    let long : ltb (length (header ∷ b ∷ bytes)) 2 ≡ false = ground arith in
    let inside : leb 1 (length (header ∷ b ∷ bytes)) ≡ true = ground arith in rw (long, inside)
