-- ===== src/Mqtt/Codec/RoundTrip/Fields.antt =====
-- codec.rs: the field decoders, at the place where an encoder wrote the field.
use pd_edge.Common.{
  ℕ, suc, ◌+◌, ◌-◌, ◌/◌, ◌%◌, ◌<◌, ◌≡◌, refl, List, [], ◌∷◌, ◌++◌, true, false, length, ltb, leb,
  length-append, take-drop_middle, drop_front, take, drop, arith, Bool-cases, inl, inr,
}
use pd_edge.Common.Outcome.{ok, index}
use pd_edge.Common.Bytes.{is_utf8, Text}
use pd_edge.Mqtt.Codec.{CodecError, FieldName}
use pd_edge.Mqtt.Codec.VarInt.RoundTrip.{decode_variable_int-groups}
use pd_edge.Mqtt.Codec.VarInt.Groups.{groups}
use pd_edge.Mqtt.Codec.Fields.{
  be_bytes, encode_utf8, decode_u16, decode_utf8, decode_properties_length, properties_extent,
}
use native.Mathlib.Numerals.{add-one}

index_written :
    (front back : List ℕ) (x i : ℕ)
    → i ≡ length front
    → index {E = CodecError} (front ++ (x ∷ back)) i ≡ ok x
index_written front back x i at = rw at (found front)
  where
    found : (front : List ℕ) → index {E = CodecError} (front ++ (x ∷ back)) (length front) ≡ ok x
    found [] = refl
    found (y ∷ front) = found front

index_written_next :
    (front back : List ℕ) (x y i : ℕ)
    → i ≡ length front + 1
    → index {E = CodecError} (front ++ (x ∷ y ∷ back)) i ≡ ok y
index_written_next front back x y i at = rw (at, add-one) (found front)
  where
    found :
        (front : List ℕ)
        → index {E = CodecError} (front ++ (x ∷ y ∷ back)) (suc (length front)) ≡ ok y
    found [] = refl
    found (z ∷ front) = found front

pub decode_u16_written :
    (n : ℕ) (front back : List ℕ) (offset : ℕ) (field : FieldName)
    → n < 65536
    → offset ≡ length front
    → decode_u16 (front ++ (be_bytes n ++ back)) offset field ≡ ok (n, offset + 2)
unfolding decode_u16
decode_u16_written n front back offset field h at =
    let bytes = front ++ (be_bytes n ++ back) in
    let fits : ltb (length bytes) (offset + 2) ≡ false =
      ground (arith, length-append front (be_bytes n ++ back)) in
    rw
      (
        fits,
        index_written front (n % 256 ∷ back) (n / 256) offset at,
        index_written_next front back (n / 256) (n % 256) (offset + 1) (omega arith),
      )
      (ground arith)

pub encode_utf8_cases :
    (value : Text) {bytes : List ℕ}
    → encode_utf8 value ≡ ok bytes
    → (length value < 65536) × (bytes ≡ be_bytes (length value) ++ value)
unfolding encode_utf8
encode_utf8_cases value {bytes} e = elim (Bool-cases (leb (length value) 65535)) [
  | inl fits ↦ (ground arith, ground arith)
  | inr long ↦ absurd (ground arith)
]

pub decode_utf8_written :
    (value : Text) (back : List ℕ) (field : FieldName)
    → length value < 65536
    → is_utf8 value ≡ true
    → decode_utf8 (be_bytes (length value) ++ (value ++ back)) 0 field
      ≡ ok (value, 2 + length value)
unfolding decode_utf8
decode_utf8_written value back field h valid =
    let bytes = be_bytes (length value) ++ (value ++ back) in
    let fits : leb (2 + length value) (length bytes) ≡ true =
      ground (arith, length-append value back) in
    let start : leb 2 (2 + length value) ≡ true = ground arith in
    let cut : take (2 + length value - 2) (drop 2 bytes) ≡ value =
      take-drop_middle (be_bytes (length value)) value back refl (omega arith) in
    rw
      (decode_u16_written (length value) [] (value ++ back) 0 field h refl, fits, start, cut, valid)

-- No properties are written as the length 0.
pub decode_properties_length_written :
    (front back : List ℕ) (offset : ℕ)
    → offset ≡ length front
    → decode_properties_length (front ++ (0 ∷ back)) offset ≡ ok (0, offset + 1)
unfolding decode_properties_length properties_extent groups
decode_properties_length_written front back offset at =
    let bytes = front ++ (0 ∷ back) in
    let inside : leb offset (length bytes) ≡ true =
      ground (arith, length-append front (0 ∷ back)) in
    let fits : leb (offset + 1 + 0) (length bytes) ≡ true =
      ground (arith, length-append front (0 ∷ back)) in
    rw (
      inside,
      drop_front front (0 ∷ back) at,
      decode_variable_int-groups 0 back (omega arith),
      fits,
    )

-- The rest of the body behind the empty properties.
pub drop_written :
    (front back : List ℕ) (offset : ℕ)
    → offset ≡ length front + 1
    → drop offset (front ++ (0 ∷ back)) ≡ back
drop_written front back offset at = rw (at, add-one) (behind front)
  where
    behind : (front : List ℕ) → drop (suc (length front)) (front ++ (0 ∷ back)) ≡ back
    behind [] = refl
    behind (x ∷ front) = behind front
