-- ===== src/Mqtt/Client.antt =====
-- src/abi_impl/mqtt/upstream.rs: how the client reads the next packet of a connection. The clock and
-- what the carrier does (a chunk, a timeout, the end of the stream, an error, and whether a ping can be
-- written) are arguments, one `Round` for each turn of the loop. Closing a carrier changes no state of
-- the connection.
use pd_edge.Common.{
  ℕ, List, [], ◌∷◌, ◌++◌, Option, none, some, Bool, true, false, drop, ◌==◌, if◌then◌else◌,
}
use pd_edge.Common.Outcome.{Outcome, ok, err, panic}
use pd_edge.Common.Bytes.{Text, text}
use pd_edge.Mqtt.Codec.{MqttIncomingPacket, CodecError}
use pd_edge.Mqtt.Codec.Decode.{decode_packet}
use pd_edge.Mqtt.Session.{
  MqttConnectionState, mark_failed, mark_closed, take_carrier, next_keep_alive_wait,
  note_packet_activity, note_ping_request_sent,
}
pub mod Reading
pub mod Silence
pub mod Waiting

-- `CarrierReadChunk`, and an error of the read.
pub data CarrierReadChunk : Type 0 where
  data_chunk : List ℕ → CarrierReadChunk
  timed_out closed_chunk read_error : CarrierReadChunk

-- One turn of the loop: the time of its first look at the keep-alive, of its second, and of what it
-- notes; what the carrier reads; and whether the carrier takes a ping.
pub record Round : Type 0 where
  pub first_look : ℕ
  pub second_look : ℕ
  pub noted_at : ℕ
  pub chunk : CarrierReadChunk
  pub ping_written : Bool

pub data ReadError : Type 0 where
  no_carrier no_keep_alive_policy read_failed write_failed : ReadError
  malformed : CodecError → ReadError

-- `Ok(Some(packet))`, `Ok(None)`, `Err`, a panic, or still waiting after the last round.
pub data ReadResult : Type 0 where
  packet : MqttIncomingPacket → MqttConnectionState → ReadResult
  ended : MqttConnectionState → ReadResult
  refused : ReadError → MqttConnectionState → ReadResult
  panicked : ReadResult
  waiting : List ℕ → MqttConnectionState → ReadResult

pub data Turn : Type 0 where
  continues : List ℕ → MqttConnectionState → Turn
  finishes : ReadResult → Turn

abbrev pub expired_message : Text
expired_message = text "mqtt keepalive expired while waiting for broker activity"

-- The keep-alive ran out with a ping unanswered: the buffer is kept, the connection fails and its
-- carrier is taken off and closed.
unfoldable pub expire : List ℕ → MqttConnectionState → Turn
expire buffer s = finishes (
    ended
      (take_carrier (mark_failed expired_message (record s { pending_read_buffer = buffer }))).1)

-- `write_connection_ping_request`
unfoldable pub write_ping : Round → List ℕ → MqttConnectionState → Turn
write_ping r buffer s = elim s.carrier [
  | none ↦ finishes (refused no_carrier s)
  | some carrier ↦
      if r.ping_written
      then continues buffer (note_ping_request_sent r.noted_at s)
      else finishes (refused write_failed s)
]

unfoldable pub expire_or_ping : Round → List ℕ → MqttConnectionState → Turn
expire_or_ping r buffer s =
    if s.ping_response_pending then expire buffer s else write_ping r buffer s

unfoldable pub read_chunk :
    Round → Option ℕ → CarrierReadChunk → List ℕ → MqttConnectionState → Turn
read_chunk r wait (data_chunk chunk) buffer s =
    continues (buffer ++ chunk) (note_packet_activity r.noted_at s)
read_chunk r none timed_out buffer s = finishes (refused no_keep_alive_policy s)
read_chunk r (some wait) timed_out buffer s = expire_or_ping r buffer s
read_chunk r wait closed_chunk buffer s =
    finishes (ended (mark_closed (record s { pending_read_buffer = buffer })))
read_chunk r wait read_error buffer s = finishes (refused read_failed s)

-- `keep_alive_wait.timeout.is_zero()`
unfoldable pub is_due : Option ℕ → Bool
is_due none = false
is_due (some wait) = wait == 0

unfoldable pub turn : Round → List ℕ → MqttConnectionState → Turn
turn r buffer s =
    if is_due (next_keep_alive_wait r.first_look s)
    then expire_or_ping r buffer s
    else read_chunk r (next_keep_alive_wait r.second_look s) r.chunk buffer s

-- What the decoder finds at the front of the buffer, else what the turn comes to.
unfoldable pub on_decoded :
    Outcome CodecError (Option (MqttIncomingPacket × ℕ))
    → List ℕ
    → MqttConnectionState
    → ReadResult
    → ReadResult
on_decoded (ok (some (found, consumed))) buffer s otherwise =
    packet found (record s { pending_read_buffer = drop consumed buffer })
on_decoded (ok none) buffer s otherwise = otherwise
on_decoded (err e) buffer s otherwise = refused (malformed e) s
on_decoded panic buffer s otherwise = panicked

unfoldable pub after_turn : Turn → (List ℕ → MqttConnectionState → ReadResult) → ReadResult
after_turn (continues buffer s) again = again buffer s
after_turn (finishes result) again = result

-- The `loop`.
unfoldable pub read_loop : List Round → List ℕ → MqttConnectionState → ReadResult
read_loop [] buffer s = on_decoded (decode_packet buffer) buffer s (waiting buffer s)
read_loop (r ∷ rounds) buffer s =
    on_decoded (decode_packet buffer) buffer s (after_turn (turn r buffer s) (read_loop rounds))

unfoldable pub read_next_packet : List Round → MqttConnectionState → ReadResult
read_next_packet rounds s = elim s.carrier [
  | none ↦ refused no_carrier s
  | some carrier ↦ read_loop rounds s.pending_read_buffer (record s { pending_read_buffer = [] })
]
