-- ===== src/Mqtt/Codec/Streaming.antt =====
-- `decode_packet` over a stream: the read buffer grows while packets are taken off its front.
use pd_edge.Common.{
  true, false, ℕ, ◌+◌, ◌-◌, ◌≤◌, ◌≡◌, ◌≢◌, refl, sym, ap, ◌∙◌, List, [], ◌∷◌, ◌++◌, Option, none,
  some, length, ltb, leb, length-append, length-drop, take-append, drop-append, take, drop, arith,
  Bool-cases, inl, inr,
}
use pd_edge.Common.Outcome.{Outcome, ok, err, panic, ◌>>=◌}
use pd_edge.Mqtt.Codec.{CodecError}
use pd_edge.Mqtt.Codec.VarInt.{decode_variable_int}
use pd_edge.Mqtt.Codec.VarInt.Streaming.{decode_variable_int-append}
use pd_edge.Mqtt.Codec.Decode.{decode_frame, decode_packet, decode_packet-cons}

slice-append :
    (bytes more : List ℕ) (from to : ℕ)
    → from ≤ to
    → to ≤ length bytes
    → take (to - from) (drop from (bytes ++ more)) ≡ take (to - from) (drop from bytes)
slice-append bytes more from to h k =
    rw (drop-append from bytes more (omega arith))
      (take-append (to - from) (drop from bytes) more (omega (arith, length-drop from bytes)))

decode_frame-append :
    (bytes more : List ℕ) (header : ℕ) (found : Option (ℕ × ℕ))
    → decode_frame bytes header found ≢ ok none
    → decode_frame (bytes ++ more) header found ≡ decode_frame bytes header found
unfolding decode_frame
decode_frame-append bytes more header none h = absurd (h refl)
decode_frame-append bytes more header (some (remaining_len, encoded_len)) h =
    let total_len = 1 + encoded_len + remaining_len in
    elim (Bool-cases (ltb (length bytes) total_len)) [
      | inl short ↦ absurd (h (rw short))
      | inr fits ↦
          let fits' : ltb (length (bytes ++ more)) total_len ≡ false =
            ground (arith, length-append bytes more) in
          let start : leb (1 + encoded_len) total_len ≡ true = ground arith in
          let inside : leb total_len (length bytes) ≡ true = ground arith in
          let inside' : leb total_len (length (bytes ++ more)) ≡ true =
            ground (arith, length-append bytes more) in
          rw (
            fits,
            fits',
            start,
            inside,
            inside',
            slice-append bytes more (1 + encoded_len) total_len (omega arith) (ground arith),
          )
    ]

then_frame-append :
    (found : Outcome CodecError (Option (ℕ × ℕ))) (bytes more : List ℕ) (header : ℕ)
    → (found >>= decode_frame bytes header) ≢ ok none
    → (found >>= decode_frame (bytes ++ more) header) ≡ (found >>= decode_frame bytes header)
then_frame-append (ok r) bytes more header h = decode_frame-append bytes more header r h
then_frame-append (err e) bytes more header h = refl
then_frame-append panic bytes more header h = refl

-- Whatever `decode_packet` answers other than "more input" (a packet, or an error) is final: bytes
-- that arrive later do not change it.
pub decode_packet-append :
    (bytes more : List ℕ)
    → decode_packet bytes ≢ ok none
    → decode_packet (bytes ++ more) ≡ decode_packet bytes
decode_packet-append [] more h = absurd (h (unfold decode_packet in refl))
decode_packet-append (b ∷ []) more h = absurd (h (unfold decode_packet in refl))
decode_packet-append (b ∷ c ∷ bytes) more h =
    let found = decode_variable_int (c ∷ bytes) in
    let answered = rw decode_packet-cons at h in
    let read : found ≢ ok none = λ e. answered (rw e (unfold decode_frame in refl)) in
    decode_packet-cons b c (bytes ++ more)
    ∙ ap (λ m. m >>= decode_frame (b ∷ c ∷ bytes ++ more) b)
        (decode_variable_int-append (c ∷ bytes) more read)
    ∙ then_frame-append found (b ∷ c ∷ bytes) more b answered
    ∙ sym (decode_packet-cons b c bytes)
