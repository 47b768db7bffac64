-- ===== src/Mqtt/Codec/RoundTrip/Frame.antt =====
-- codec.rs: `encode_fixed_packet` and the framing of `decode_packet`.
use pd_edge.Common.{
  ℕ, ◌+◌, ◌-◌, ◌/◌, ◌≤◌, ◌≡◌, ap, ◌∙◌, List, [], ◌∷◌, ◌++◌, some, true, false, length, ltb, leb,
  length-append, take-drop_middle, take, drop, arith, Bool-cases, inl, inr, bit_and,
}
use pd_edge.Common.Outcome.{ok, ◌>>=◌}
use pd_edge.Mqtt.Codec.VarInt.{encode_variable_int, decode_variable_int, max_variable_int}
use pd_edge.Mqtt.Codec.VarInt.Groups.{groups, encode_variable_int-groups, length-groups}
use pd_edge.Mqtt.Codec.VarInt.RoundTrip.{decode_variable_int-groups}
use pd_edge.Mqtt.Codec.Decode.{decode_body, decode_frame, decode_packet, decode_packet-cons}
use pd_edge.Mqtt.Codec.Encode.{encode_fixed_packet}
use mathlib.Core.List.{append_assoc}

-- The encoder writes the header, the length of the body and the body; it refuses a body that is
-- longer than a remaining length can say.
pub encode_fixed_packet_cases :
    (header : ℕ) (body : List ℕ) {bytes : List ℕ}
    → encode_fixed_packet header body ≡ ok bytes
    → (length body ≤ max_variable_int) × (bytes ≡ header ∷ (groups 3 (length body) ++ body))
unfolding encode_fixed_packet
encode_fixed_packet_cases header body {bytes} e =
    elim (Bool-cases (ltb max_variable_int (length body))) [
      | inl long ↦ absurd (unfold encode_variable_int in ground (arith, long))
      | inr fits ↦
          let small : length body ≤ max_variable_int = ground arith in
          (small, ground (arith, encode_variable_int-groups (length body) small))
    ]

decode_frame_whole :
    (header : ℕ) (lead body rest : List ℕ)
    → decode_frame (header ∷ (lead ++ (body ++ rest))) header (some (length body, length lead)) ≡ (
        decode_body (header / 16) (bit_and header 0x0f) body >>= λ packet.
        ok (some (packet, 1 + length lead + length body)))
unfolding decode_frame
decode_frame_whole header lead body rest =
    let bytes = header ∷ (lead ++ (body ++ rest)) in
    let total_len = 1 + length lead + length body in
    let size : length bytes ≡ 1 + length lead + length body + length rest =
      omega (arith, length-append lead (body ++ rest), length-append body rest) in
    let fits : ltb (length bytes) total_len ≡ false = ground arith in
    let start : leb (1 + length lead) total_len ≡ true = ground arith in
    let inside : leb total_len (length bytes) ≡ true = ground arith in
    let cut : take (total_len - (1 + length lead)) (drop (1 + length lead) bytes) ≡ body =
      take-drop_middle (header ∷ lead) body rest (omega arith) (omega arith) in
    rw (fits, start, inside, cut)

decode_packet_groups :
    (header : ℕ) (lead rest : List ℕ)
    → 1 ≤ length lead
    → decode_packet (header ∷ (lead ++ rest))
      ≡ (decode_variable_int (lead ++ rest) >>= decode_frame (header ∷ (lead ++ rest)) header)
decode_packet_groups header [] rest h = absurd (omega arith)
decode_packet_groups header (b ∷ lead) rest h = decode_packet-cons header b (lead ++ rest)

-- A packet that `encode_fixed_packet` built is decoded by its type, flags and body, whatever follows
-- it, and takes all its bytes.
pub decode_packet-encode_fixed_packet :
    (header : ℕ) (body rest : List ℕ) {bytes : List ℕ}
    → encode_fixed_packet header body ≡ ok bytes
    → decode_packet (bytes ++ rest) ≡ (
        decode_body (header / 16) (bit_and header 0x0f) body >>= λ packet.
        ok (some (packet, length bytes)))
decode_packet-encode_fixed_packet header body rest {bytes} e =
    let (small, built) = encode_fixed_packet_cases header body e in
    let size : length bytes ≡ 1 + length (groups 3 (length body)) + length body =
      omega (arith, ap length built, length-append (groups 3 (length body)) body) in
    rw (size, built, append_assoc)
      (decode_packet_groups header (groups 3 (length body)) (body ++ rest)
          (length-groups 3 (length body)).0
        ∙ ap (λ m. m >>= decode_frame (header ∷ (groups 3 (length body) ++ (body ++ rest))) header)
            (decode_variable_int-groups (length body) (body ++ rest) small)
        ∙ decode_frame_whole header (groups 3 (length body)) body rest)
