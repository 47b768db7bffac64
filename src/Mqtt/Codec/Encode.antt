-- ===== src/Mqtt/Codec/Encode.antt =====
-- codec.rs: the packets that the client sends.
use pd_edge.Common.{
  ℕ, ◌*◌, List, [], ◌∷◌, ◌++◌, Option, none, some, Bool, true, false, ◌&&◌, length, is_empty, ◌==◌,
  if◌then◌else◌, bit_and, bit_or,
}
use pd_edge.Common.Outcome.{Outcome, ok, ◌>>=◌}
use pd_edge.Common.Bytes.{Text, text}
use pd_edge.Mqtt.Codec.{CodecError}
use pd_edge.Mqtt.Codec.VarInt.{encode_variable_int}
use pd_edge.Mqtt.Codec.Fields.{be_bytes, encode_utf8}

unfoldable pub encode_fixed_packet : ℕ → List ℕ → Outcome CodecError (List ℕ)
encode_fixed_packet header body = do
  remaining ← encode_variable_int (length body)
  ok (header ∷ remaining ++ body)

-- The fields of `MqttConnectConfig` that `encode_connect_packet` reads.
pub record ConnectFields : Type 0 where
  pub client_id : Text
  pub username : Option Text
  pub password : Option Text
  pub keep_alive_secs : ℕ
  pub clean_start : Bool

abbrev is_some {ℓ} : {A : Type ℓ} → Option A → Bool
is_some none = false
is_some (some a) = true

unfoldable pub connect_flags : ConnectFields → ℕ
connect_flags c =
    let start = if c.clean_start then bit_or 0 0x02 else 0 in
    let named = if is_some c.username then bit_or start 0x80 else start in
    if is_some c.password then bit_or named 0x40 else named

-- `if let Some(value) = … { body.extend(encode_utf8(value)?) }`
unfoldable pub encode_optional : Option Text → Outcome CodecError (List ℕ)
encode_optional none = ok []
encode_optional (some value) = encode_utf8 value

unfoldable pub encode_connect_packet : ConnectFields → Outcome CodecError (List ℕ)
encode_connect_packet c = do
  protocol ← encode_utf8 (text "MQTT")
  client_id ← encode_utf8 c.client_id
  username ← encode_optional c.username
  password ← encode_optional c.password
  encode_fixed_packet 0x10 (
      protocol
      ++ 0x05 ∷ connect_flags c ∷ be_bytes c.keep_alive_secs
      ++ 0 ∷ client_id
      ++ username
      ++ password)

unfoldable pub publish_header : ℕ → Bool → ℕ
publish_header qos retain =
    let header = bit_or 0x30 (bit_and qos 0x03 * 2) in if retain then bit_or header 0x01 else header

abbrev pub optional_id : Option ℕ → List ℕ
optional_id none = []
optional_id (some packet_id) = be_bytes packet_id

unfoldable pub encode_publish_packet :
    (topic : Text) (payload : List ℕ) (qos : ℕ) (retain : Bool) (packet_id : Option ℕ)
    → Outcome CodecError (List ℕ)
encode_publish_packet topic payload qos retain packet_id = do
  name ← encode_utf8 topic
  encode_fixed_packet (publish_header qos retain) (name ++ (optional_id packet_id ++ 0 ∷ payload))

unfoldable pub encode_subscribe_packet :
    (filter : Text) (qos packet_id : ℕ) → Outcome CodecError (List ℕ)
encode_subscribe_packet filter qos packet_id = do
  name ← encode_utf8 filter
  encode_fixed_packet 0x82 (be_bytes packet_id ++ 0 ∷ name ++ bit_and qos 0x03 ∷ [])

unfoldable pub encode_unsubscribe_packet :
    (filter : Text) (packet_id : ℕ) → Outcome CodecError (List ℕ)
encode_unsubscribe_packet filter packet_id = do
  name ← encode_utf8 filter
  encode_fixed_packet 0xa2 (be_bytes packet_id ++ 0 ∷ name)

unfoldable pub encode_puback_packet : ℕ → Outcome CodecError (List ℕ)
encode_puback_packet packet_id = encode_fixed_packet 0x40 (be_bytes packet_id ++ 0x00 ∷ 0x00 ∷ [])

unfoldable pub encode_pingreq_packet : Outcome CodecError (List ℕ)
encode_pingreq_packet = encode_fixed_packet 0xc0 []

unfoldable pub disconnect_properties : Text → Outcome CodecError (List ℕ)
disconnect_properties reason_text =
    if is_empty reason_text
    then ok []
    else (do reason ← encode_utf8 reason_text; ok (0x1f ∷ reason))

unfoldable pub encode_disconnect_packet :
    (reason_code : ℕ) (reason_text : Text) → Outcome CodecError (List ℕ)
encode_disconnect_packet reason_code reason_text =
    if reason_code == 0 && is_empty reason_text then ok (0xe0 ∷ 0x00 ∷ []) else (do
      properties ← disconnect_properties reason_text
      properties_len ← encode_variable_int (length properties)
      encode_fixed_packet 0xe0 (reason_code ∷ properties_len ++ properties))
