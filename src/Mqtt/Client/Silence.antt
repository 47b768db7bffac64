-- ===== src/Mqtt/Client/Silence.antt =====
-- upstream.rs: what becomes of a connection whose broker says nothing.
use pd_edge.Common.{
  ℕ, List, ◌∷◌, Option, none, some, Bool, true, false, ◌≡◌, ◌≢◌, inl, inr, refl, sym, ap, ◌∙◌,
  Bool-cases, if◌then◌else◌,
}
use pd_edge.Common.Outcome.{ok}
use mathlib.Core.Path.{subst}
use pd_edge.Mqtt.Codec.Decode.{decode_packet}
use pd_edge.Mqtt.Session.{
  MqttPhase, open_phase, MqttCarrierAttachment, MqttConnectionState, mark_failed, take_carrier,
  next_keep_alive_wait, note_ping_request_sent,
}
use pd_edge.Mqtt.Session.KeepAlive.{next_keep_alive_wait-eq-none_iff}
use pd_edge.Mqtt.Client.{
  timed_out, Round, ReadResult, ended, refused, no_carrier, write_failed, continues, finishes,
  expired_message, expire, write_ping, expire_or_ping, read_chunk, is_due, turn, on_decoded,
  after_turn, read_loop,
}

if-same : {A : Type 0} (b : Bool) {x y : A} → y ≡ x → (if b then x else y) ≡ x
if-same true e = refl
if-same false e = e

read_chunk-timed_out :
    (r : Round) (wait : Option ℕ) (buffer : List ℕ) (s : MqttConnectionState)
    → wait ≢ none
    → read_chunk r wait timed_out buffer s ≡ expire_or_ping r buffer s
unfolding read_chunk
read_chunk-timed_out r none buffer s h = absurd (h refl)
read_chunk-timed_out r (some wait) buffer s h = refl

-- A turn in which nothing arrives ends the connection or sends a ping, whether the keep-alive ran out
-- before the read or during it.
silent_turn :
    (r : Round) (buffer : List ℕ) (s : MqttConnectionState)
    → r.chunk ≡ timed_out
    → s.phase ≡ open_phase
    → s.keep_alive_secs ≢ 0
    → turn r buffer s ≡ expire_or_ping r buffer s
unfolding turn
silent_turn r buffer s e o k =
    let wait = next_keep_alive_wait r.second_look s in
    if-same (is_due (next_keep_alive_wait r.first_look s)) (
      ap (λ c. read_chunk r wait c buffer s) e
      ∙ read_chunk-timed_out r wait buffer s (λ n.
        elim ((next_keep_alive_wait-eq-none_iff r.second_look s).0 n) [
          | inl p ↦ p o
          | inr z ↦ k z
        ]))

-- The reading ends with the connection failed for its silence, its carrier gone and its bytes kept.
abbrev pub EndsInSilence : List ℕ → ReadResult → Type 0
EndsInSilence buffer result =
    (s : MqttConnectionState) × (result ≡ ended s)
    × (s.phase ≡ MqttPhase.failed)
    × (s.failure_message ≡ some expired_message)
    × (s.carrier ≡ none)
    × (s.pending_read_buffer ≡ buffer)

silent_loop :
    (r : Round) (rounds : List Round) (buffer : List ℕ) (s : MqttConnectionState)
    → r.chunk ≡ timed_out
    → s.phase ≡ open_phase
    → s.keep_alive_secs ≢ 0
    → decode_packet buffer ≡ ok none
    → read_loop (r ∷ rounds) buffer s ≡ after_turn (expire_or_ping r buffer s) (read_loop rounds)
unfolding read_loop on_decoded
silent_loop r rounds buffer s e o k d =
    ap (λ m. on_decoded m buffer s (after_turn (turn r buffer s) (read_loop rounds))) d
    ∙ ap (λ t. after_turn t (read_loop rounds)) (silent_turn r buffer s e o k)

expired :
    (r : Round) (buffer : List ℕ) (s : MqttConnectionState)
    (again : List ℕ → MqttConnectionState → ReadResult)
    → s.ping_response_pending ≡ true
    → EndsInSilence buffer (after_turn (expire_or_ping r buffer s) again)
unfolding expire_or_ping expire after_turn mark_failed take_carrier
expired r buffer s again e = (
  _,
  ap (λ b. after_turn (if b then expire buffer s else write_ping r buffer s) again) e,
  refl,
  refl,
  refl,
  refl,
)

pinged :
    (r : Round) (buffer : List ℕ) (s : MqttConnectionState)
    (again : List ℕ → MqttConnectionState → ReadResult) {carrier : MqttCarrierAttachment}
    → s.carrier ≡ some carrier
    → r.ping_written ≡ true
    → s.ping_response_pending ≡ false
    → after_turn (expire_or_ping r buffer s) again
      ≡ again buffer (note_ping_request_sent r.noted_at s)
unfolding expire_or_ping write_ping after_turn
pinged r buffer s again c w e =
    ap (λ b. after_turn (if b then expire buffer s else write_ping r buffer s) again) e
    ∙ ap
        (λ c.
          after_turn
            (elim c [
              | none ↦ finishes (refused no_carrier s)
              | some carrier ↦
                  if r.ping_written
                  then continues buffer (note_ping_request_sent r.noted_at s)
                  else finishes (refused write_failed s)
            ])
            again)
        c
    ∙ ap
        (λ b.
          after_turn
            (if b
              then continues buffer (note_ping_request_sent r.noted_at s)
              else finishes (refused write_failed s))
            again)
        w

-- An open connection with a keep-alive, no whole packet in its buffer and a carrier that takes a ping
-- but delivers nothing in two turns: within these two turns the reading ends with the connection
-- failed, with the message for an expired keep-alive, its carrier taken off and the bytes kept. This
-- holds whatever the clock says, and whether a ping was already unanswered before or not.
pub two_silent_turns :
    (r₁ r₂ : Round) (rounds : List Round) (buffer : List ℕ) (s : MqttConnectionState)
    {carrier : MqttCarrierAttachment}
    → s.carrier ≡ some carrier
    → s.phase ≡ open_phase
    → s.keep_alive_secs ≢ 0
    → decode_packet buffer ≡ ok none
    → r₁.chunk ≡ timed_out
    → r₁.ping_written ≡ true
    → r₂.chunk ≡ timed_out
    → EndsInSilence buffer (read_loop (r₁ ∷ r₂ ∷ rounds) buffer s)
unfolding note_ping_request_sent
two_silent_turns r₁ r₂ rounds buffer s c o k d e w f = elim (Bool-cases s.ping_response_pending) [
  | inl p ↦
      subst (EndsInSilence buffer) (sym (silent_loop r₁ (r₂ ∷ rounds) buffer s e o k d))
        (expired r₁ buffer s (read_loop (r₂ ∷ rounds)) p)
  | inr p ↦
      let s' = note_ping_request_sent r₁.noted_at s in
      subst (EndsInSilence buffer)
        (sym (
          silent_loop r₁ (r₂ ∷ rounds) buffer s e o k d
          ∙ pinged r₁ buffer s (read_loop (r₂ ∷ rounds)) c w p
          ∙ silent_loop r₂ rounds buffer s' f o k d))
        (expired r₂ buffer s' (read_loop rounds) refl)
]
