-- ===== src/Tests/Codec.antt =====
-- codec.rs: the theorems on the codec, at concrete packets.
use pd_edge.Common.{
  ◌≤◌, ◌≡◌, ◌≢◌, ◌↔◌, ◌<◌, ◌^◌, refl, ℕ, List, [], ◌∷◌, ◌++◌, none, some, true, false, length,
  bit_and, ◌/◌, arith,
}
use pd_edge.Common.Outcome.{ok, Ensures, ◌>>=◌}
use pd_edge.Mqtt.Codec.{publish, pub_ack}
use pd_edge.Mqtt.Codec.VarInt.{encode_variable_int, decode_variable_int}
use pd_edge.Mqtt.Codec.VarInt.RoundTrip.{
  decode_variable_int-encode_variable_int, length-encode_variable_int,
}
use pd_edge.Mqtt.Codec.Fields.{encode_utf8}
use pd_edge.Common.Bytes.{is_utf8}
use pd_edge.Mqtt.Codec.Encode.{
  encode_fixed_packet, encode_publish_packet, encode_puback_packet, encode_disconnect_packet,
  publish_header, disconnect_properties,
}
use pd_edge.Mqtt.Codec.Decode.{decode_packet, decode_body, decode_frame}
use pd_edge.Mqtt.Codec.Safety.{IsFrame, decode_packet-IsFrame}
use pd_edge.Mqtt.Codec.Streaming.{decode_packet-append}
use pd_edge.Mqtt.Codec.RoundTrip.Frame.{decode_packet-encode_fixed_packet}
use pd_edge.Mqtt.Codec.RoundTrip.Packets.{
  decode_packet-encode_publish_packet, decode_packet-encode_puback_packet,
}

-- A PUBLISH to the topic "a/b" with packet id 7 and the payload 1, 2.
abbrev publish_bytes : List ℕ
publish_bytes = 50 ∷ 10 ∷ 0 ∷ 3 ∷ 97 ∷ 47 ∷ 98 ∷ 0 ∷ 7 ∷ 0 ∷ 1 ∷ 2 ∷ []

abbrev topic : List ℕ
topic = 97 ∷ 47 ∷ 98 ∷ []

topic-is_utf8 : is_utf8 topic ≡ true
unfolding is_utf8
topic-is_utf8 = refl

decode_packet-IsFrame_example : Ensures (IsFrame publish_bytes) (decode_packet publish_bytes)
decode_packet-IsFrame_example = decode_packet-IsFrame publish_bytes

pingresp_is_final : decode_packet (208 ∷ 0 ∷ []) ≢ ok none
unfolding decode_packet decode_variable_int decode_frame decode_body
pingresp_is_final = λ e. absurd (ground arith)

decode_packet-append_example :
    decode_packet ((208 ∷ 0 ∷ []) ++ publish_bytes) ≡ decode_packet (208 ∷ 0 ∷ [])
decode_packet-append_example = decode_packet-append (208 ∷ 0 ∷ []) publish_bytes pingresp_is_final

published : encode_publish_packet topic (1 ∷ 2 ∷ []) 1 false (some 7) ≡ ok publish_bytes
unfolding encode_publish_packet encode_utf8 encode_fixed_packet encode_variable_int publish_header
published = refl

decode_packet-encode_publish_packet_example :
    decode_packet (publish_bytes ++ (208 ∷ []))
    ≡ ok (some (publish topic (1 ∷ 2 ∷ []) 1 false false (some 7), 12))
decode_packet-encode_publish_packet_example =
    decode_packet-encode_publish_packet topic (1 ∷ 2 ∷ []) 1 false (some 7) (208 ∷ []) topic-is_utf8
      (omega arith) published

framed : encode_fixed_packet 64 (0 ∷ 7 ∷ []) ≡ ok (64 ∷ 2 ∷ 0 ∷ 7 ∷ [])
unfolding encode_fixed_packet encode_variable_int
framed = refl

decode_packet-encode_fixed_packet_example :
    decode_packet ((64 ∷ 2 ∷ 0 ∷ 7 ∷ []) ++ (9 ∷ []))
    ≡ (decode_body (64 / 16) (bit_and 64 0x0f) (0 ∷ 7 ∷ []) >>= λ packet. ok (some (packet, 4)))
decode_packet-encode_fixed_packet_example =
    decode_packet-encode_fixed_packet 64 (0 ∷ 7 ∷ []) (9 ∷ []) framed

decode_packet-encode_puback_packet_example :
    (bytes : List ℕ) × (encode_puback_packet 300 ≡ ok bytes)
    × (length bytes ≡ 6)
    × (decode_packet (bytes ++ (9 ∷ [])) ≡ ok (some (pub_ack 300 0, length bytes)))
decode_packet-encode_puback_packet_example =
    decode_packet-encode_puback_packet 300 (9 ∷ []) (omega arith)

disconnected : encode_disconnect_packet 4 [] ≡ ok (224 ∷ 2 ∷ 4 ∷ 0 ∷ [])
unfolding encode_disconnect_packet disconnect_properties encode_variable_int encode_fixed_packet
disconnected = refl

length_of_300 : encode_variable_int 300 ≡ ok (172 ∷ 2 ∷ [])
unfolding encode_variable_int
length_of_300 = refl

decode_variable_int-encode_variable_int_example :
    decode_variable_int ((172 ∷ 2 ∷ []) ++ (5 ∷ [])) ≡ ok (some (300, 2))
decode_variable_int-encode_variable_int_example =
    decode_variable_int-encode_variable_int 300 (5 ∷ []) length_of_300

length-encode_variable_int_example : (length {A = ℕ} (172 ∷ 2 ∷ []) ≤ 2) ↔ (300 < 128 ^ 2)
length-encode_variable_int_example =
    length-encode_variable_int 300 2 (omega arith) (omega arith) length_of_300

seven_is_final : decode_variable_int (7 ∷ []) ≢ ok none
unfolding decode_variable_int
seven_is_final = λ e. absurd (ground arith)
