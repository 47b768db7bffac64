-- ===== src/Mqtt/Client/Waiting/Handling.antt =====
-- upstream.rs: what is done with one packet that is not waited for.
use pd_edge.Mqtt.Client.Waiting.{ack_not_written}
use pd_edge.Mqtt.Client.Waiting.{no_carrier_for_ack}
use pd_edge.Common.{
  ℕ, List, [], ◌∷◌, ◌++◌, Option, none, some, Bool, true, false, ◌==◌, ◌≡◌, refl, sym, ap, ◌∙◌,
  if◌then◌else◌,
}
use pd_edge.Common.Lists.{append_nil}
use pd_edge.Common.Outcome.{Outcome, ok, err, panic}
use pd_edge.Common.Bytes.{text}
use pd_edge.Mqtt.Codec.{MqttIncomingPacket, CodecError}
use pd_edge.Mqtt.Codec.Encode.{encode_puback_packet}
use pd_edge.Mqtt.Session.{
  MqttCarrierAttachment, MqttEvent, mark_closed, note_packet_activity, note_ping_response_received,
}
use pd_edge.Mqtt.Client.Waiting.{
  Call, Client, Handled, handled, unhandled, queue_event, write_connection_packet, write_puback,
  acknowledge, then_queue, handle_unsolicited_packet,
}
use pd_edge.Transport.Tls.Keys.{decimal}

-- The event that a packet is queued as, and the acknowledgement it asks for.
unfoldable pub event_of : MqttIncomingPacket → List MqttEvent
event_of (MqttIncomingPacket.publish topic payload qos retain dup packet_id) =
    MqttEvent.publish topic payload qos retain dup ∷ []
event_of (MqttIncomingPacket.disconnect reason_code) =
    MqttEvent.closed (text "remote-disconnect:" ++ decimal 3 reason_code) ∷ []
event_of other = []

unfoldable pub encoded : Outcome CodecError (List ℕ) → List (List ℕ)
encoded (ok bytes) = bytes ∷ []
encoded other = []

unfoldable pub puback_for : Option ℕ → List (List ℕ)
puback_for none = []
puback_for (some packet_id) = encoded (encode_puback_packet packet_id)

unfoldable pub ack_of : MqttIncomingPacket → List (List ℕ)
ack_of (MqttIncomingPacket.publish topic payload qos retain dup packet_id) =
    if qos == 1 then puback_for packet_id else []
ack_of other = []

unfoldable pub events_of : List MqttIncomingPacket → List MqttEvent
events_of [] = []
events_of (p ∷ ps) = event_of p ++ events_of ps

unfoldable pub acks_of : List MqttIncomingPacket → List (List ℕ)
acks_of [] = []
acks_of (p ∷ ps) = ack_of p ++ acks_of ps

-- The client once a packet has been dealt with: its event and its acknowledgement are added, or nothing.
abbrev pub Adds : Client → List MqttEvent → List (List ℕ) → Handled → Type 0
Adds c events acks (handled d) =
    (d.state.pending_events ≡ c.state.pending_events ++ events) × (d.sent ≡ c.sent ++ acks)
Adds c events acks (unhandled e d) =
    (d.state.pending_events ≡ c.state.pending_events) × (d.sent ≡ c.sent)

write_connection_packet-Adds :
    (call : Call) (bytes : List ℕ) (c : Client)
    → Adds c [] (bytes ∷ []) (write_connection_packet call bytes c)
unfolding write_connection_packet note_packet_activity
write_connection_packet-Adds call bytes c = carried c.state.carrier call.ack_taken
  where
    carried :
        (carrier : Option MqttCarrierAttachment) (taken : Bool)
        → Adds c [] (bytes ∷ []) (elim carrier [
          | none ↦ unhandled no_carrier_for_ack c
          | some carrier ↦
              if taken
              then handled (record {
                state = note_packet_activity call.now c.state;
                sent = c.sent ++ bytes ∷ [];
              })
              else unhandled ack_not_written c
        ])
    carried none taken = (refl, refl)
    carried (some carrier) true = (sym (append_nil c.state.pending_events), refl)
    carried (some carrier) false = (refl, refl)

write_puback-Adds :
    (call : Call) (o : Outcome CodecError (List ℕ)) (c : Client)
    → Adds c [] (encoded o) (write_puback call o c)
unfolding write_puback encoded
write_puback-Adds call (ok bytes) c = write_connection_packet-Adds call bytes c
write_puback-Adds call (err e) c = (refl, refl)
write_puback-Adds call panic c = (refl, refl)

acknowledge-Adds :
    (call : Call) (packet_id : Option ℕ) (c : Client)
    → Adds c [] (puback_for packet_id) (acknowledge call packet_id c)
unfolding acknowledge puback_for
acknowledge-Adds call none c = (refl, refl)
acknowledge-Adds call (some packet_id) c = write_puback-Adds call (encode_puback_packet packet_id) c

acknowledged_if-Adds :
    (call : Call) (asks : Bool) (packet_id : Option ℕ) (c : Client)
    → Adds c []
        (if asks then puback_for packet_id else [])
        (if asks then acknowledge call packet_id c else handled c)
acknowledged_if-Adds call true packet_id c = acknowledge-Adds call packet_id c
acknowledged_if-Adds call false packet_id c =
    (sym (append_nil c.state.pending_events), sym (append_nil c.sent))

then_queue-Adds :
    (c : Client) (event : MqttEvent) (acks : List (List ℕ)) (h : Handled)
    → Adds c [] acks h
    → Adds c (event ∷ []) acks (then_queue event h)
unfolding then_queue queue_event
then_queue-Adds c event acks (handled d) (same, sent) =
    (ap (λ es. es ++ event ∷ []) (same ∙ append_nil c.state.pending_events), sent)
then_queue-Adds c event acks (unhandled e d) adds = adds

nothing-Adds : (c : Client) → Adds c [] [] (handled c)
nothing-Adds c = (sym (append_nil c.state.pending_events), sym (append_nil c.sent))

pub handle_unsolicited_packet-Adds :
    (call : Call) (p : MqttIncomingPacket) (c : Client)
    → Adds c (event_of p) (ack_of p) (handle_unsolicited_packet call p c)
unfolding handle_unsolicited_packet event_of ack_of queue_event mark_closed
    note_ping_response_received
handle_unsolicited_packet-Adds call
      (MqttIncomingPacket.publish topic payload qos retain dup packet_id) c =
    then_queue-Adds c (MqttEvent.publish topic payload qos retain dup) _ _
      (acknowledged_if-Adds call (qos == 1) packet_id c)
handle_unsolicited_packet-Adds call (MqttIncomingPacket.disconnect reason_code) c =
    (refl, sym (append_nil c.sent))
handle_unsolicited_packet-Adds call MqttIncomingPacket.ping_resp c = nothing-Adds c
handle_unsolicited_packet-Adds call (MqttIncomingPacket.conn_ack reason_code) c = nothing-Adds c
handle_unsolicited_packet-Adds call (MqttIncomingPacket.pub_ack packet_id reason_code) c =
    nothing-Adds c
handle_unsolicited_packet-Adds call (MqttIncomingPacket.sub_ack packet_id reason_codes) c =
    nothing-Adds c
handle_unsolicited_packet-Adds call (MqttIncomingPacket.unsub_ack packet_id reason_codes) c =
    nothing-Adds c
