-- ===== src/Mqtt/Client/Waiting.antt =====
-- src/abi_impl/mqtt/upstream.rs: the waits for an acknowledgement, which deal with the other packets that
-- come first. Each read of a packet is a `Call`, which holds its rounds, the clock and whether the
-- carrier takes an acknowledgement.
pub mod Queue
pub mod Verdicts
pub mod Handling
pub mod Answered
use pd_edge.Common.{
  ℕ, List, [], ◌∷◌, ◌++◌, Option, none, some, Bool, true, false, ◌==◌, ◌&&◌, ◌||◌, not, ltb,
  if◌then◌else◌,
}
use pd_edge.Common.Outcome.{Outcome, ok, err, panic}
use pd_edge.Common.Bytes.{Text, text}
use pd_edge.Mqtt.Codec.{MqttIncomingPacket, CodecError}
use pd_edge.Mqtt.Codec.Encode.{encode_puback_packet}
use pd_edge.Mqtt.Session.{
  MqttConnectionState, MqttEvent, mark_closed, note_packet_activity, note_ping_response_received,
}
use pd_edge.Mqtt.Client.{
  Round, ReadError, ReadResult, packet, ended, refused, panicked, waiting, read_next_packet,
}
use pd_edge.Transport.Tls.Keys.{decimal}

pub record Call : Type 0 where
  pub rounds : List Round
  pub now : ℕ
  pub ack_taken : Bool

-- The connection, and the packets written in answer to what came, the first first.
pub record Client : Type 0 where
  pub state : MqttConnectionState
  pub sent : List (List ℕ)

pub data WaitError : Type 0 where
  unread : ReadError → WaitError
  missing_packet_id no_carrier_for_ack ack_not_written ack_panicked : WaitError
  ack_not_encoded : CodecError → WaitError

pub data Handled : Type 0 where
  handled : Client → Handled
  unhandled : WaitError → Client → Handled

unfoldable pub queue_event : MqttEvent → Client → Client
queue_event event c = record c {
  state = record c.state { pending_events = c.state.pending_events ++ event ∷ [] };
}

-- `write_connection_packet`
unfoldable pub write_connection_packet : Call → List ℕ → Client → Handled
write_connection_packet call bytes c = elim c.state.carrier [
  | none ↦ unhandled no_carrier_for_ack c
  | some carrier ↦
      if call.ack_taken
      then handled
          (record { state = note_packet_activity call.now c.state; sent = c.sent ++ bytes ∷ [] })
      else unhandled ack_not_written c
]

unfoldable pub write_puback : Call → Outcome CodecError (List ℕ) → Client → Handled
write_puback call (ok bytes) c = write_connection_packet call bytes c
write_puback call (err e) c = unhandled (ack_not_encoded e) c
write_puback call panic c = unhandled ack_panicked c

unfoldable pub acknowledge : Call → Option ℕ → Client → Handled
acknowledge call none c = unhandled missing_packet_id c
acknowledge call (some packet_id) c = write_puback call (encode_puback_packet packet_id) c

unfoldable pub then_queue : MqttEvent → Handled → Handled
then_queue event (handled c) = handled (queue_event event c)
then_queue event (unhandled e c) = unhandled e c

unfoldable pub handle_unsolicited_packet : Call → MqttIncomingPacket → Client → Handled
handle_unsolicited_packet call (MqttIncomingPacket.publish topic payload qos retain dup packet_id)
      c =
    then_queue (MqttEvent.publish topic payload qos retain dup)
      (if qos == 1 then acknowledge call packet_id c else handled c)
handle_unsolicited_packet call (MqttIncomingPacket.disconnect reason_code) c = handled (
    queue_event (MqttEvent.closed (text "remote-disconnect:" ++ decimal 3 reason_code))
      (record c { state = mark_closed c.state }))
handle_unsolicited_packet call MqttIncomingPacket.ping_resp c =
    handled (record c { state = note_ping_response_received call.now c.state })
handle_unsolicited_packet call (MqttIncomingPacket.conn_ack reason_code) c = handled c
handle_unsolicited_packet call (MqttIncomingPacket.pub_ack packet_id reason_code) c = handled c
handle_unsolicited_packet call (MqttIncomingPacket.sub_ack packet_id reason_codes) c = handled c
handle_unsolicited_packet call (MqttIncomingPacket.unsub_ack packet_id reason_codes) c = handled c

-- Whether a packet is the one waited for, and if so, whether it accepts.
unfoldable pub any_rejected : List ℕ → Bool
any_rejected [] = false
any_rejected (code ∷ codes) = not (ltb code 0x80) || any_rejected codes

unfoldable pub puback_verdict : ℕ → MqttIncomingPacket → Option Bool
puback_verdict expected (MqttIncomingPacket.pub_ack packet_id reason_code) =
    if packet_id == expected then some (ltb reason_code 0x80) else none
puback_verdict expected other = none

unfoldable pub suback_verdict : ℕ → MqttIncomingPacket → Option Bool
suback_verdict expected (MqttIncomingPacket.sub_ack packet_id reason_codes) =
    if packet_id == expected then some (not (any_rejected reason_codes)) else none
suback_verdict expected other = none

unfoldable pub unsuback_verdict : ℕ → MqttIncomingPacket → Option Bool
unsuback_verdict expected (MqttIncomingPacket.unsub_ack packet_id reason_codes) =
    if packet_id == expected then some (not (any_rejected reason_codes)) else none
unsuback_verdict expected other = none

-- How a wait ends: accepted or rejected, the connection over, an error, a panic, or still going on after
-- the last call.
pub data Waited : Type 0 where
  accepted rejected connection_over : Client → Waited
  wait_failed : WaitError → Client → Waited
  wait_panicked : Client → Waited
  still_waiting : Client → Waited

unfoldable pub after_handled : Handled → (Client → Waited) → Waited
after_handled (handled c) again = again c
after_handled (unhandled e c) again = wait_failed e c

unfoldable pub judged : Option Bool → Client → Waited → Waited
judged (some true) c otherwise = accepted c
judged (some false) c otherwise = rejected c
judged none c otherwise = otherwise

unfoldable pub on_read :
    (MqttIncomingPacket → Option Bool) → Call → ReadResult → Client → (Client → Waited) → Waited
on_read verdict call (packet p s) c again =
    let read = record c { state = s } in
    judged (verdict p) read (after_handled (handle_unsolicited_packet call p read) again)
on_read verdict call (ended s) c again = connection_over (record c { state = s })
on_read verdict call (refused e s) c again = wait_failed (unread e) (record c { state = s })
on_read verdict call panicked c again = wait_panicked c
on_read verdict call (waiting buffer s) c again = still_waiting (record c { state = s })

unfoldable pub wait_loop : (MqttIncomingPacket → Option Bool) → List Call → Client → Waited
wait_loop verdict [] c = still_waiting c
wait_loop verdict (call ∷ calls) c =
    on_read verdict call (read_next_packet call.rounds c.state) c (wait_loop verdict calls)

unfoldable pub wait_for_puback : ℕ → List Call → Client → Waited
wait_for_puback expected = wait_loop (puback_verdict expected)

unfoldable pub wait_for_suback : ℕ → List Call → Client → Waited
wait_for_suback expected = wait_loop (suback_verdict expected)

unfoldable pub wait_for_unsuback : ℕ → List Call → Client → Waited
wait_for_unsuback expected = wait_loop (unsuback_verdict expected)
