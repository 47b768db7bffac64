-- ===== src/Mqtt/Codec/RoundTrip/Packets.antt =====
-- codec.rs: the packets of the client, decoded again: PUBLISH, PUBACK and DISCONNECT, which both
-- sides send.
use pd_edge.Mqtt.Codec.Encode.{
  disconnect_properties, encode_disconnect_packet, encode_fixed_packet, publish_header, optional_id,
  encode_publish_packet, encode_puback_packet,
}
use pd_edge.Common.{
  inr, inl, Bool-cases, is_empty, ◌&&◌, ℕ, zero, suc, ◌+◌, ◌/◌, ◌%◌, ◌≤◌, ◌<◌, ◌≡◌, refl, List, [],
  ◌∷◌, ◌++◌, Option, none, some, Bool, true, false, length, leb, length-append, arith, bit_and, not,
  ◌==◌, drop,
}
use pd_edge.Mqtt.Codec.{
  disconnect, publish, pub_ack, publish_topic, publish_packet_id, puback_packet_id,
}
use pd_edge.Mqtt.Codec.Decode.{
  decode_disconnect, decode_body, decode_packet, decode_publish, decode_packet_id, decode_pub_ack,
  decode_pub_ack_reason, check_pub_ack_properties,
}
use pd_edge.Mqtt.Codec.VarInt.{encode_variable_int}
use pd_edge.Common.Outcome.{>>=-eq-ok, ok}
use pd_edge.Common.Bytes.{is_utf8, Text}
use pd_edge.Mqtt.Codec.Fields.{be_bytes, encode_utf8, decode_utf8, decode_properties_length}
use pd_edge.Mqtt.Codec.RoundTrip.Frame.{decode_packet-encode_fixed_packet}
use pd_edge.Mqtt.Codec.RoundTrip.Fields.{
  encode_utf8_cases, decode_u16_written, decode_utf8_written, decode_properties_length_written,
  drop_written,
}
use mathlib.Core.List.{append_assoc}
use native.Mathlib.Nat.{add-zero}

-- A packet id comes with quality of service 1 exactly, and is a `u16`.
abbrev pub Sendable : ℕ → Option ℕ → Type 0
Sendable zero none = Unit
Sendable (suc zero) (some packet_id) = packet_id < 65536
Sendable _ _ = ⊥

decode_packet_id_written :
    (qos : ℕ) (packet_id : Option ℕ) (front back : List ℕ) (offset : ℕ)
    → Sendable qos packet_id
    → offset ≡ length front
    → decode_packet_id (front ++ (optional_id packet_id ++ back)) offset qos
      ≡ ok (packet_id, offset + length (optional_id packet_id))
unfolding decode_packet_id
decode_packet_id_written zero none front back offset h at = ground arith
decode_packet_id_written (suc zero) (some id) front back offset h at =
    rw (decode_u16_written id front back offset publish_packet_id h at) refl
decode_packet_id_written _ _ front back offset h at = absurd h

-- The four headers, read back.
header_fields :
    (qos : ℕ) (retain : Bool) (packet_id : Option ℕ)
    → Sendable qos packet_id
    → (publish_header qos retain / 16 ≡ 3)
      × (not (bit_and (bit_and (publish_header qos retain) 0x0f) 0x01 == 0) ≡ retain)
      × (bit_and (bit_and (publish_header qos retain) 0x0f / 2) 0x03 ≡ qos)
      × (not (bit_and (bit_and (publish_header qos retain) 0x0f) 0x08 == 0) ≡ false)
unfolding publish_header
header_fields zero true none h = (refl, refl, refl, refl)
header_fields zero false none h = (refl, refl, refl, refl)
header_fields (suc zero) true (some id) h = (refl, refl, refl, refl)
header_fields (suc zero) false (some id) h = (refl, refl, refl, refl)
header_fields _ _ _ h = absurd h

Sendable-le : (qos : ℕ) (packet_id : Option ℕ) → Sendable qos packet_id → qos ≤ 1
Sendable-le zero none h = omega arith
Sendable-le (suc zero) (some id) h = omega arith
Sendable-le _ _ h = absurd h

-- The steps of `decode_publish` on a body with no properties.
decode_publish_steps :
    (body : List ℕ) (flags : ℕ) {topic : Text} {payload : List ℕ} {qos topic_end id_end : ℕ}
    {retain dup : Bool} {packet_id : Option ℕ}
    → (not (bit_and flags 0x01 == 0) ≡ retain)
    → (bit_and (flags / 2) 0x03 ≡ qos)
    → (not (bit_and flags 0x08 == 0) ≡ dup)
    → qos ≤ 1
    → decode_utf8 body 0 publish_topic ≡ ok (topic, topic_end)
    → decode_packet_id body topic_end qos ≡ ok (packet_id, id_end)
    → decode_properties_length body id_end ≡ ok (0, id_end + 1)
    → id_end + 1 ≤ length body
    → drop (id_end + 1) body ≡ payload
    → decode_publish body flags ≡ ok (publish topic payload qos retain dup packet_id)
unfolding decode_publish
decode_publish_steps body flags {qos} {id_end} retained quality first low named id none_there inside
      cut =
    let low' : leb qos 1 ≡ true = ground arith in
    let inside' : leb (id_end + 1) (length body) ≡ true = ground arith in
    rw (retained, quality, first, low', named, id, none_there, add-zero, inside', cut)

decode_publish_written :
    (topic : Text) (payload : List ℕ) (qos : ℕ) (retain : Bool) (packet_id : Option ℕ)
    → length topic < 65536
    → is_utf8 topic ≡ true
    → Sendable qos packet_id
    → decode_publish
        ((be_bytes (length topic) ++ topic) ++ (optional_id packet_id ++ (0 ∷ payload)))
        (bit_and (publish_header qos retain) 0x0f)
      ≡ ok (publish topic payload qos retain false packet_id)
decode_publish_written topic payload qos retain packet_id short valid sendable =
    decode_publish_steps (head ++ (id ++ (0 ∷ payload))) (bit_and (publish_header qos retain) 0x0f)
      flags.1 flags.2 flags.3 (Sendable-le qos packet_id sendable)
      (rw append_assoc (decode_utf8_written topic (id ++ (0 ∷ payload)) publish_topic short valid))
      (decode_packet_id_written qos packet_id head (0 ∷ payload) (2 + length topic) sendable
        (omega arith))
      (rw (← append_assoc head id (0 ∷ payload))
        (decode_properties_length_written (head ++ id) payload id_end size))
      (omega (arith, length-append head (id ++ (0 ∷ payload)), length-append id (0 ∷ payload)))
      (rw (← append_assoc head id (0 ∷ payload))
        (drop_written (head ++ id) payload (id_end + 1) (omega (arith, size))))
  where
    id : List ℕ
    id = optional_id packet_id

    head : List ℕ
    head = be_bytes (length topic) ++ topic

    id_end : ℕ
    id_end = 2 + length topic + length id

    size : id_end ≡ length (head ++ id)
    size = omega (arith, length-append head id)

    flags :
        (publish_header qos retain / 16 ≡ 3)
        × (not (bit_and (bit_and (publish_header qos retain) 0x0f) 0x01 == 0) ≡ retain)
        × (bit_and (bit_and (publish_header qos retain) 0x0f / 2) 0x03 ≡ qos)
        × (not (bit_and (bit_and (publish_header qos retain) 0x0f) 0x08 == 0) ≡ false)
    flags = header_fields qos retain packet_id sendable

-- A PUBLISH that `encode_publish_packet` wrote is decoded with the same topic, payload, quality of
-- service, retain flag and packet id, not as a duplicate; it takes all its bytes, whatever follows
-- them. The topic is UTF-8, and a packet id below 65536 comes with quality of service 1 exactly.
pub decode_packet-encode_publish_packet :
    (topic : Text) (payload : List ℕ) (qos : ℕ) (retain : Bool) (packet_id : Option ℕ)
    (rest : List ℕ) {bytes : List ℕ}
    → is_utf8 topic ≡ true
    → Sendable qos packet_id
    → encode_publish_packet topic payload qos retain packet_id ≡ ok bytes
    → decode_packet (bytes ++ rest)
      ≡ ok (some (publish topic payload qos retain false packet_id, length bytes))
unfolding encode_publish_packet decode_body
decode_packet-encode_publish_packet topic payload qos retain packet_id rest {bytes} valid sendable
      e =
    let (name, named, framed) = >>=-eq-ok (encode_utf8 topic) _ e in
    let (short, written) = encode_utf8_cases topic named in
    let body = name ++ (optional_id packet_id ++ (0 ∷ payload)) in
    let decoded : decode_publish body (bit_and (publish_header qos retain) 0x0f)
        ≡ ok (publish topic payload qos retain false packet_id) =
      rw written (decode_publish_written topic payload qos retain packet_id short valid sendable) in
    rw (
      decode_packet-encode_fixed_packet (publish_header qos retain) body rest framed,
      (header_fields qos retain packet_id sendable).0,
      decoded,
    )

decode_pub_ack_written :
    (packet_id : ℕ)
    → packet_id < 65536
    → decode_pub_ack (be_bytes packet_id ++ (0 ∷ 0 ∷ [])) ≡ ok (pub_ack packet_id 0)
unfolding decode_pub_ack decode_pub_ack_reason check_pub_ack_properties
decode_pub_ack_written id h = rw (
  decode_u16_written id [] (0 ∷ 0 ∷ []) 0 puback_packet_id h refl,
  decode_properties_length_written (id / 256 ∷ id % 256 ∷ 0 ∷ []) [] 3 refl,
)

acknowledged :
    (packet_id : ℕ)
    → encode_puback_packet packet_id ≡ ok (0x40 ∷ 4 ∷ (be_bytes packet_id ++ (0 ∷ 0 ∷ [])))
unfolding encode_puback_packet encode_fixed_packet encode_variable_int
acknowledged packet_id = refl

-- The PUBACK for a packet id below 65536 can be encoded, and whatever follows it, it is decoded with the
-- same packet id and reason code 0, and takes all its bytes, which are six.
pub decode_packet-encode_puback_packet :
    (packet_id : ℕ) (rest : List ℕ)
    → packet_id < 65536
    → (bytes : List ℕ) × (encode_puback_packet packet_id ≡ ok bytes)
      × (length bytes ≡ 6)
      × (decode_packet (bytes ++ rest) ≡ ok (some (pub_ack packet_id 0, length bytes)))
unfolding encode_puback_packet decode_body
decode_packet-encode_puback_packet packet_id rest h = (
  0x40 ∷ 4 ∷ (be_bytes packet_id ++ (0 ∷ 0 ∷ [])),
  acknowledged packet_id,
  refl,
  (rw (
    decode_packet-encode_fixed_packet 0x40 (be_bytes packet_id ++ (0 ∷ 0 ∷ [])) rest
        (acknowledged packet_id),
    decode_pub_ack_written packet_id h,
  )),
)

no_body : encode_fixed_packet 0xe0 [] ≡ ok (0xe0 ∷ 0x00 ∷ [])
unfolding encode_fixed_packet encode_variable_int
no_body = refl

-- A DISCONNECT that `encode_disconnect_packet` wrote is decoded with the same reason code, whether it
-- carries a reason text or not, and takes all its bytes.
pub decode_packet-encode_disconnect_packet :
    (reason_code : ℕ) (reason_text : Text) (rest : List ℕ) {bytes : List ℕ}
    → encode_disconnect_packet reason_code reason_text ≡ ok bytes
    → decode_packet (bytes ++ rest) ≡ ok (some (disconnect reason_code, length bytes))
unfolding encode_disconnect_packet decode_body decode_disconnect
decode_packet-encode_disconnect_packet reason_code reason_text rest {bytes} e =
    elim (Bool-cases (reason_code == 0 && is_empty reason_text)) [
      | inl bare ↦
          let written : bytes ≡ 0xe0 ∷ 0x00 ∷ [] = ground arith in
          let none_given : reason_code ≡ 0 = ground arith in
          rw (written, none_given) (rw (decode_packet-encode_fixed_packet 0xe0 [] rest no_body))
      | inr told ↦
          let framed = rw told at e in
          let (properties, _, sized) = >>=-eq-ok (disconnect_properties reason_text) _ framed in
          let (len, _, fixed) = >>=-eq-ok (encode_variable_int (length properties)) _ sized in
          rw (decode_packet-encode_fixed_packet 0xe0 (reason_code ∷ (len ++ properties)) rest fixed)
    ]
