-- ===== src/Mqtt/Client/Waiting/Queue.antt =====
-- upstream.rs: reading a packet leaves the queue of events alone.
use mathlib.Core.Path.{subst}
use pd_edge.Common.{
  ℕ, List, [], ◌∷◌, Option, none, some, Bool, true, false, ◌≡◌, refl, if◌then◌else◌,
}
use pd_edge.Common.Outcome.{Outcome, ok, err, panic}
use pd_edge.Mqtt.Codec.{MqttIncomingPacket, CodecError}
use pd_edge.Mqtt.Session.{
  MqttConnectionState, MqttCarrierAttachment, MqttEvent, mark_closed, mark_failed, take_carrier,
  note_packet_activity, note_ping_request_sent, next_keep_alive_wait,
}
use pd_edge.Mqtt.Client.{
  Round, CarrierReadChunk, data_chunk, timed_out, closed_chunk, read_error, Turn, continues,
  finishes, expire, write_ping, expire_or_ping, read_chunk, is_due, turn, on_decoded, after_turn,
  read_loop, no_carrier, write_failed, ReadResult, packet, ended, refused, panicked, waiting,
  read_next_packet,
}
use pd_edge.Mqtt.Codec.Decode.{decode_packet}

-- A read leaves the queue of events as it was.
abbrev pub Keeps : List MqttEvent → ReadResult → Type 0
Keeps events (packet p s) = s.pending_events ≡ events
Keeps events (ended s) = s.pending_events ≡ events
Keeps events (refused e s) = s.pending_events ≡ events
Keeps events panicked = events ≡ events
Keeps events (waiting buffer s) = s.pending_events ≡ events

abbrev pub KeepsOn : List MqttEvent → Turn → Type 0
KeepsOn events (continues buffer s) = s.pending_events ≡ events
KeepsOn events (finishes result) = Keeps events result

if-KeepsOn :
    (events : List MqttEvent) (b : Bool) (t u : Turn)
    → KeepsOn events t
    → KeepsOn events u
    → KeepsOn events (if b then t else u)
if-KeepsOn events true t u p q = p
if-KeepsOn events false t u p q = q

write_ping-KeepsOn :
    (r : Round) (buffer : List ℕ) (s : MqttConnectionState)
    → KeepsOn s.pending_events (write_ping r buffer s)
unfolding write_ping note_ping_request_sent
write_ping-KeepsOn r buffer s = written s.carrier
  where
    written :
        (c : Option MqttCarrierAttachment)
        → KeepsOn s.pending_events (elim c [
          | none ↦ finishes (refused no_carrier s)
          | some carrier ↦
              if r.ping_written
              then continues buffer (note_ping_request_sent r.noted_at s)
              else finishes (refused write_failed s)
        ])
    written none = refl
    written (some carrier) = if-KeepsOn s.pending_events r.ping_written _ _ refl refl

expire_or_ping-KeepsOn :
    (r : Round) (buffer : List ℕ) (s : MqttConnectionState)
    → KeepsOn s.pending_events (expire_or_ping r buffer s)
unfolding expire_or_ping expire mark_failed take_carrier
expire_or_ping-KeepsOn r buffer s =
    if-KeepsOn s.pending_events s.ping_response_pending _ _ refl (write_ping-KeepsOn r buffer s)

read_chunk-KeepsOn :
    (r : Round) (wait : Option ℕ) (c : CarrierReadChunk) (buffer : List ℕ) (s : MqttConnectionState)
    → KeepsOn s.pending_events (read_chunk r wait c buffer s)
unfolding read_chunk mark_closed note_packet_activity
read_chunk-KeepsOn r wait (data_chunk bytes) buffer s = refl
read_chunk-KeepsOn r none timed_out buffer s = refl
read_chunk-KeepsOn r (some wait) timed_out buffer s = expire_or_ping-KeepsOn r buffer s
read_chunk-KeepsOn r wait closed_chunk buffer s = refl
read_chunk-KeepsOn r wait read_error buffer s = refl

turn-KeepsOn :
    (r : Round) (buffer : List ℕ) (s : MqttConnectionState)
    → KeepsOn s.pending_events (turn r buffer s)
unfolding turn
turn-KeepsOn r buffer s =
    if-KeepsOn s.pending_events (is_due (next_keep_alive_wait r.first_look s)) _ _
      (expire_or_ping-KeepsOn r buffer s)
      (read_chunk-KeepsOn r (next_keep_alive_wait r.second_look s) r.chunk buffer s)

on_decoded-Keeps :
    (d : Outcome CodecError (Option (MqttIncomingPacket × ℕ))) (buffer : List ℕ)
    (s : MqttConnectionState) (otherwise : ReadResult)
    → Keeps s.pending_events otherwise
    → Keeps s.pending_events (on_decoded d buffer s otherwise)
unfolding on_decoded
on_decoded-Keeps (ok (some (found, consumed))) buffer s otherwise keeps = refl
on_decoded-Keeps (ok none) buffer s otherwise keeps = keeps
on_decoded-Keeps (err e) buffer s otherwise keeps = refl
on_decoded-Keeps panic buffer s otherwise keeps = refl

after_turn-Keeps :
    (events : List MqttEvent) (t : Turn) (again : List ℕ → MqttConnectionState → ReadResult)
    → ((buffer : List ℕ) (s : MqttConnectionState) → Keeps s.pending_events (again buffer s))
    → KeepsOn events t
    → Keeps events (after_turn t again)
unfolding after_turn
after_turn-Keeps events (continues buffer s) again keeps e =
    subst (λ es. Keeps es (again buffer s)) e (keeps buffer s)
after_turn-Keeps events (finishes result) again keeps e = e

read_loop-Keeps :
    (rounds : List Round) (buffer : List ℕ) (s : MqttConnectionState)
    → Keeps s.pending_events (read_loop rounds buffer s)
unfolding read_loop
read_loop-Keeps [] buffer s = on_decoded-Keeps (decode_packet buffer) buffer s _ refl
read_loop-Keeps (r ∷ rounds) buffer s = on_decoded-Keeps (decode_packet buffer) buffer s _ (
    after_turn-Keeps s.pending_events (turn r buffer s) (read_loop rounds) (read_loop-Keeps rounds)
      (turn-KeepsOn r buffer s))

pub read_next_packet-Keeps :
    (rounds : List Round) (s : MqttConnectionState)
    → Keeps s.pending_events (read_next_packet rounds s)
unfolding read_next_packet
read_next_packet-Keeps rounds s = carried s.carrier
  where
    carried :
        (c : Option MqttCarrierAttachment)
        → Keeps s.pending_events (elim c [
          | none ↦ refused no_carrier s
          | some carrier ↦
              read_loop rounds s.pending_read_buffer (record s { pending_read_buffer = [] })
        ])
    carried none = refl
    carried (some carrier) =
        read_loop-Keeps rounds s.pending_read_buffer (record s { pending_read_buffer = [] })
