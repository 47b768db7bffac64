-- ===== src/Mqtt/Codec/Fields.antt =====
-- codec.rs: the fields of a packet: strings, `u16`s, and the length of the properties. A decoder
-- takes the body and the offset and returns the offset behind what it read.
use pd_edge.Common.{
  ℕ, ◌+◌, ◌*◌, ◌/◌, ◌%◌, List, [], ◌∷◌, ◌++◌, Option, none, some, length, ltb, leb, if◌then◌else◌,
}
use pd_edge.Common.Outcome.{Outcome, ok, err, ◌>>=◌, ◌>>◌, guard, index, slice, slice_from}
use pd_edge.Common.Bytes.{Text, is_utf8}
use pd_edge.Mqtt.Codec.{
  CodecError, FieldName, string_too_long, field_truncated, field_not_utf8,
  properties_length_truncated, properties_truncated,
}
use pd_edge.Mqtt.Codec.VarInt.{decode_variable_int}

-- `u16::to_be_bytes`
abbrev pub be_bytes : ℕ → List ℕ
be_bytes n = n / 256 ∷ n % 256 ∷ []

unfoldable pub encode_utf8 : Text → Outcome CodecError (List ℕ)
encode_utf8 value =
    if leb (length value) 65535
    then ok (be_bytes (length value) ++ value)
    else err (string_too_long (length value))

unfoldable pub decode_u16 : List ℕ → ℕ → FieldName → Outcome CodecError (ℕ × ℕ)
decode_u16 bytes offset field =
    if ltb (length bytes) (offset + 2) then err (field_truncated field) else (do
      high ← index bytes offset
      low ← index bytes (offset + 1)
      ok (high * 256 + low, offset + 2))

unfoldable pub decode_utf8 : List ℕ → ℕ → FieldName → Outcome CodecError (Text × ℕ)
decode_utf8 bytes offset field = do
  (len, offset') ← decode_u16 bytes offset field
  guard (leb (offset' + len) (length bytes)) (field_truncated field)
  value ← slice bytes offset' (offset' + len)
  guard (is_utf8 value) (field_not_utf8 field)
  ok (value, offset' + len)

-- `.ok_or_else(…)?`, and the check that the properties are there.
unfoldable pub properties_extent : List ℕ → ℕ → Option (ℕ × ℕ) → Outcome CodecError (ℕ × ℕ)
properties_extent bytes offset none = err properties_length_truncated
properties_extent bytes offset (some (len, encoded_len)) = do
  guard (leb (offset + encoded_len + len) (length bytes)) properties_truncated
  ok (len, offset + encoded_len)

unfoldable pub decode_properties_length : List ℕ → ℕ → Outcome CodecError (ℕ × ℕ)
decode_properties_length bytes offset = do
  rest ← slice_from bytes offset
  found ← decode_variable_int rest
  properties_extent bytes offset found
