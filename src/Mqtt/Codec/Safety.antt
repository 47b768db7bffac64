-- ===== src/Mqtt/Codec/Safety.antt =====
-- What the decoders of codec.rs return: never a panic, offsets inside the body, and packets that
-- keep the rules of the protocol.
use pd_edge.Common.{
  ◌↔◌, ◌-◌, drop, take, ℕ, ◌+◌, ◌/◌, ◌≤◌, ◌<◌, ◌≡◌, refl, List, [], ◌∷◌, Option, none, some, true,
  length, leb, ltb, leb→le, arith, ◌==◌, Bool-cases, inl, inr, bit_and,
}
use pd_edge.Common.Outcome.{
  ok, Ensures, Ensures-bind, after-guard, after-index, after-slice, after-slice_from, Ensures-if,
  Ensures-guard,
}
use pd_edge.Common.Bytes.{is_utf8, Text}
use pd_edge.Mqtt.Codec.{
  MqttIncomingPacket, publish, FieldName, publish_topic, publish_packet_id, puback_packet_id,
  suback_packet_id, unsuback_packet_id, field_not_utf8, properties_truncated,
  puback_properties_malformed,
}
use pd_edge.Mqtt.Codec.VarInt.{decode_variable_int}
use pd_edge.Mqtt.Codec.VarInt.Streaming.{Takes, decode_variable_int-Takes}
use pd_edge.Mqtt.Codec.Fields.{decode_u16, decode_utf8, decode_properties_length, properties_extent}
use pd_edge.Mqtt.Codec.Decode.{
  decode_conn_ack, decode_packet_id, decode_publish, decode_pub_ack_reason,
  check_pub_ack_properties, decode_pub_ack, decode_sub_ack, decode_unsub_ack, decode_disconnect,
  decode_body, decode_frame, decode_packet, decode_packet-cons,
}

-- The field ends two bytes on, inside the body.
abbrev Ends16 : List ℕ → ℕ → ℕ × ℕ → Type 0
Ends16 bytes offset (value, end) = (end ≡ offset + 2) × (end ≤ length bytes)

decode_u16_ends :
    (bytes : List ℕ) (offset : ℕ) (field : FieldName)
    → Ensures (Ends16 bytes offset) (decode_u16 bytes offset field)
unfolding decode_u16
decode_u16_ends bytes offset field = elim (Bool-cases (ltb (length bytes) (offset + 2))) [
  | inl short ↦ rw short tt
  | inr fits ↦ rw fits (
      after-index (Ends16 bytes offset) bytes offset _ (ground arith) λ _ _.
        after-index (Ends16 bytes offset) bytes (offset + 1) _ (ground arith)
          λ _ _. (refl, ground arith))
]

-- The text is UTF-8, and ends inside the body.
abbrev EndsText : List ℕ → ℕ → Text × ℕ → Type 0
EndsText bytes offset (value, end) =
    (is_utf8 value ≡ true) × (offset + 2 ≤ end) × (end ≤ length bytes)

decode_utf8_ends :
    (bytes : List ℕ) (offset : ℕ) (field : FieldName)
    → Ensures (EndsText bytes offset) (decode_utf8 bytes offset field)
unfolding decode_utf8
decode_utf8_ends bytes offset field =
    let Q = EndsText bytes offset in
    Ensures-bind (Ends16 bytes offset) Q (decode_u16 bytes offset field) _
      (decode_u16_ends bytes offset field)
      λ (len, offset') ends. after-guard Q (leb (offset' + len) (length bytes)) _ _ λ fits.
        after-slice Q bytes offset' (offset' + len) _ (omega arith) (leb→le _ _ fits) (
          after-guard Q (is_utf8 (take (offset' + len - offset') (drop offset' bytes)))
            (field_not_utf8 field)
            (ok (take (offset' + len - offset') (drop offset' bytes), offset' + len))
            λ valid. (valid, omega arith, leb→le _ _ fits))

-- The properties start behind their length, and end inside the body.
abbrev EndsProperties : List ℕ → ℕ → ℕ × ℕ → Type 0
EndsProperties bytes offset (len, end) = (offset < end) × (end + len ≤ length bytes)

properties_extent_ends :
    (bytes : List ℕ) (offset : ℕ) (found : Option (ℕ × ℕ))
    → Takes (drop offset bytes) found
    → Ensures (EndsProperties bytes offset) (properties_extent bytes offset found)
unfolding properties_extent
properties_extent_ends bytes offset none takes = tt
properties_extent_ends bytes offset (some (len, encoded_len)) takes =
    after-guard (EndsProperties bytes offset) _ properties_truncated
      (ok (len, offset + encoded_len))
      λ fits. (omega (arith, takes), leb→le (offset + encoded_len + len) (length bytes) fits)

decode_properties_length_ends :
    (bytes : List ℕ) (offset : ℕ)
    → offset ≤ length bytes
    → Ensures (EndsProperties bytes offset) (decode_properties_length bytes offset)
unfolding decode_properties_length
decode_properties_length_ends bytes offset h =
    let rest = drop offset bytes in
    let Q = EndsProperties bytes offset in
    after-slice_from Q bytes offset _ h (
      Ensures-bind (Takes rest) Q (decode_variable_int rest) _ (decode_variable_int-Takes rest)
        (properties_extent_ends bytes offset))

-- What every decoded packet satisfies: the quality of service is 0 or 1, a packet id comes with 1
-- exactly, and the topic is UTF-8.
abbrev pub IsValid : MqttIncomingPacket → Type 0
IsValid (publish topic payload qos retain dup packet_id) =
    (is_utf8 topic ≡ true) × (qos ≤ 1) × (packet_id ≡ none ↔ qos ≡ 0)
IsValid _ = Unit

decode_conn_ack-IsValid : (body : List ℕ) → Ensures IsValid (decode_conn_ack body)
unfolding decode_conn_ack
decode_conn_ack-IsValid body = after-guard IsValid (leb 2 (length body)) _ _ λ long.
    Ensures-bind (EndsProperties body 2) IsValid (decode_properties_length body 2) _
      (decode_properties_length_ends body 2 (leb→le _ _ long))
      λ (len, offset) ends.
        after-guard IsValid (offset + len == length body) _ _
          λ _. after-index IsValid body 1 _ (leb→le _ _ long) λ _ _. tt

-- The packet id is there exactly if it is asked for.
abbrev EndsId : List ℕ → ℕ → ℕ → Option ℕ × ℕ → Type 0
EndsId body offset qos (packet_id, end) =
    (packet_id ≡ none ↔ qos ≡ 0) × (offset ≤ end) × (end ≤ length body)

decode_packet_id_ends :
    (body : List ℕ) (offset qos : ℕ)
    → offset ≤ length body
    → Ensures (EndsId body offset qos) (decode_packet_id body offset qos)
unfolding decode_packet_id
decode_packet_id_ends body offset qos h = elim (Bool-cases (ltb 0 qos)) [
  | inl asked ↦ rw asked (
      Ensures-bind (Ends16 body offset) (EndsId body offset qos)
        (decode_u16 body offset publish_packet_id) _ (decode_u16_ends body offset publish_packet_id)
        λ (packet_id, end) ends. ((λ e. cc, λ e. absurd (ground arith)), omega arith, ends.1))
  | inr absent ↦ rw absent ((λ e. ground arith, λ e. refl), omega arith, h)
]

decode_publish-IsValid : (body : List ℕ) (flags : ℕ) → Ensures IsValid (decode_publish body flags)
unfolding decode_publish
decode_publish-IsValid body flags =
    let qos = bit_and (flags / 2) 0x03 in
    after-guard IsValid (leb qos 1) _ _ λ low.
      Ensures-bind (EndsText body 0) IsValid (decode_utf8 body 0 publish_topic) _
        (decode_utf8_ends body 0 publish_topic)
        λ (topic, topic_end) named.
          Ensures-bind (EndsId body topic_end qos) IsValid (decode_packet_id body topic_end qos) _
            (decode_packet_id_ends body topic_end qos (omega arith))
            λ (packet_id, id_end) id.
              Ensures-bind (EndsProperties body id_end) IsValid
                (decode_properties_length body id_end) _
                (decode_properties_length_ends body id_end id.2)
                λ (len, end) ends. after-guard IsValid (leb (end + len) (length body)) _ _ λ fits.
                  after-slice_from IsValid body (end + len) _ (leb→le _ _ fits)
                    (named.0, leb→le _ _ low, id.0)

decode_pub_ack_reason_ends :
    (body : List ℕ) (offset : ℕ)
    → offset ≤ length body
    → Ensures (λ r. r.1 ≤ length body) (decode_pub_ack_reason body offset)
unfolding decode_pub_ack_reason
decode_pub_ack_reason_ends body offset h = elim (Bool-cases (ltb offset (length body))) [
  | inl more ↦ rw more (
      after-index (λ (r : ℕ × ℕ). r.1 ≤ length body) body offset _ (ground arith)
        λ _ _. ground arith)
  | inr done ↦ rw done h
]

check_pub_ack_properties_ends :
    (body : List ℕ) (offset : ℕ)
    → offset ≤ length body
    → Ensures (λ _. Unit) (check_pub_ack_properties body offset)
unfolding check_pub_ack_properties
check_pub_ack_properties_ends body offset h = elim (Bool-cases (ltb offset (length body))) [
  | inl more ↦ rw more (
      Ensures-bind (EndsProperties body offset) (λ _. Unit) (decode_properties_length body offset) _
        (decode_properties_length_ends body offset h)
        λ (len, end) _. Ensures-guard (end + len == length body) puback_properties_malformed)
  | inr done ↦ rw done tt
]

decode_pub_ack-IsValid : (body : List ℕ) → Ensures IsValid (decode_pub_ack body)
unfolding decode_pub_ack
decode_pub_ack-IsValid body =
    Ensures-bind (Ends16 body 0) IsValid (decode_u16 body 0 puback_packet_id) _
      (decode_u16_ends body 0 puback_packet_id)
      λ (packet_id, id_end) id.
        Ensures-bind (λ r. r.1 ≤ length body) IsValid (decode_pub_ack_reason body id_end) _
          (decode_pub_ack_reason_ends body id_end id.1)
          λ (reason, offset) read.
            Ensures-bind (λ _. Unit) IsValid (check_pub_ack_properties body offset) _
              (check_pub_ack_properties_ends body offset read) λ _ _. tt

decode_sub_ack-IsValid : (body : List ℕ) → Ensures IsValid (decode_sub_ack body)
unfolding decode_sub_ack
decode_sub_ack-IsValid body =
    Ensures-bind (Ends16 body 0) IsValid (decode_u16 body 0 suback_packet_id) _
      (decode_u16_ends body 0 suback_packet_id)
      λ (packet_id, id_end) id.
        Ensures-bind (EndsProperties body id_end) IsValid (decode_properties_length body id_end) _
          (decode_properties_length_ends body id_end id.1)
          λ (len, end) ends.
            after-guard IsValid (leb (end + len) (length body)) _ _
              λ fits. after-slice_from IsValid body (end + len) _ (leb→le _ _ fits) tt

decode_unsub_ack-IsValid : (body : List ℕ) → Ensures IsValid (decode_unsub_ack body)
unfolding decode_unsub_ack
decode_unsub_ack-IsValid body =
    Ensures-bind (Ends16 body 0) IsValid (decode_u16 body 0 unsuback_packet_id) _
      (decode_u16_ends body 0 unsuback_packet_id)
      λ (packet_id, id_end) id.
        Ensures-bind (EndsProperties body id_end) IsValid (decode_properties_length body id_end) _
          (decode_properties_length_ends body id_end id.1)
          λ (len, end) ends.
            after-guard IsValid (leb (end + len) (length body)) _ _
              λ fits. after-slice_from IsValid body (end + len) _ (leb→le _ _ fits) tt

decode_disconnect-IsValid : (body : List ℕ) → IsValid (decode_disconnect body)
unfolding decode_disconnect
decode_disconnect-IsValid [] = tt
decode_disconnect-IsValid (b ∷ body) = tt

decode_body-IsValid :
    (packet_type flags : ℕ) (body : List ℕ) → Ensures IsValid (decode_body packet_type flags body)
unfolding decode_body
decode_body-IsValid packet_type flags body =
    Ensures-if IsValid (packet_type == 2) _ _ (λ _. decode_conn_ack-IsValid body)
      λ _.
        Ensures-if IsValid (packet_type == 3) _ _ (λ _. decode_publish-IsValid body flags)
          λ _.
            Ensures-if IsValid (packet_type == 4) _ _ (λ _. decode_pub_ack-IsValid body)
              λ _.
                Ensures-if IsValid (packet_type == 9) _ _ (λ _. decode_sub_ack-IsValid body)
                  λ _.
                    Ensures-if IsValid (packet_type == 11) _ _ (λ _. decode_unsub_ack-IsValid body)
                      λ _.
                        Ensures-if IsValid (packet_type == 13) _ _ (λ _. tt)
                          λ _.
                            Ensures-if IsValid (packet_type == 14) _ _
                              (λ _. decode_disconnect-IsValid body) λ _. tt

-- A decoded packet takes at least two of the bytes, and no more than there are.
abbrev pub IsFrame : List ℕ → Option (MqttIncomingPacket × ℕ) → Type 0
IsFrame bytes none = Unit
IsFrame bytes (some (packet, total_len)) =
    (2 ≤ total_len) × (total_len ≤ length bytes) × IsValid packet

decode_frame-IsFrame :
    (b : ℕ) (bytes : List ℕ) (found : Option (ℕ × ℕ))
    → Takes bytes found
    → Ensures (IsFrame (b ∷ bytes)) (decode_frame (b ∷ bytes) b found)
unfolding decode_frame
decode_frame-IsFrame b bytes none takes = tt
decode_frame-IsFrame b bytes (some (remaining_len, encoded_len)) takes =
    let total_len = 1 + encoded_len + remaining_len in
    let Q = IsFrame (b ∷ bytes) in
    elim (Bool-cases (ltb (length (b ∷ bytes)) total_len)) [
      | inl short ↦ rw short tt
      | inr fits ↦ rw fits (
          after-slice Q (b ∷ bytes) (1 + encoded_len) total_len _ (omega arith) (ground arith) (
            Ensures-bind IsValid Q
              (decode_body (b / 16) (bit_and b 0x0f)
                (take (total_len - (1 + encoded_len)) (drop (1 + encoded_len) (b ∷ bytes))))
              _ (decode_body-IsValid _ _ _) λ packet valid. (omega arith, ground arith, valid)))
    ]

-- On every list of bytes `decode_packet` returns or refuses: no index or slice is out of range. What
-- it returns is a valid packet, and takes at least two of the bytes and no more than there are.
pub decode_packet-IsFrame : (bytes : List ℕ) → Ensures (IsFrame bytes) (decode_packet bytes)
unfolding decode_packet
decode_packet-IsFrame [] = tt
decode_packet-IsFrame (b ∷ []) = tt
decode_packet-IsFrame (b ∷ c ∷ bytes) = rw decode_packet-cons (
    Ensures-bind (Takes (c ∷ bytes)) (IsFrame (b ∷ c ∷ bytes)) (decode_variable_int (c ∷ bytes)) _
      (decode_variable_int-Takes (c ∷ bytes)) (decode_frame-IsFrame b (c ∷ bytes)))
