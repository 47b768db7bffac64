-- ===== src/Tests/Client.antt =====
-- upstream.rs: the theorems on reading, at a concrete connection.
use pd_edge.Common.{none}
use pd_edge.Common.{◌≡◌}
use pd_edge.Common.{arith}
use pd_edge.Common.{refl, List, [], ◌∷◌, some, true}
use pd_edge.Mqtt.Session.{MqttConnectionState, default_state, open_phase, tcp}
use pd_edge.Mqtt.Client.{Round, data_chunk, timed_out, read_next_packet, read_loop}
use pd_edge.Mqtt.Client.Waiting.{
  Call, Client, puback_verdict, suback_verdict, unsuback_verdict, wait_for_puback, wait_for_suback,
  wait_for_unsuback,
}
use pd_edge.Mqtt.Client.Waiting.Answered.{Answered, waits_answer}
use pd_edge.Common.{◌↔◌}
use pd_edge.Mqtt.Codec.{pub_ack}
use pd_edge.Mqtt.Client.Waiting.Verdicts.{IsPuback, IsSuback, IsUnsuback}
use pd_edge.Mqtt.Client.Silence.{EndsInSilence, two_silent_turns}
use pd_edge.Mqtt.Codec.Decode.{decode_packet}
use pd_edge.Common.Outcome.{ok}
use pd_edge.Mqtt.Client.Reading.{ReadsWell, read_next_packet-ReadsWell}

-- An open connection to which the first byte of a PINGRESP has come.
abbrev half_read : MqttConnectionState
half_read = record default_state {
  phase = open_phase;
  present = true;
  carrier = some (tcp 3);
  last_activity_at = some 5;
  pending_read_buffer = 208 ∷ [];
}

-- The second byte comes with a byte of the next packet.
abbrev second_half : List Round
second_half =
    record {
      first_look = 6;
      second_look = 7;
      noted_at = 8;
      chunk = data_chunk (0 ∷ 64 ∷ []);
      ping_written = true;
    }
    ∷ []

read_next_packet-ReadsWell_example :
    ReadsWell second_half
      (208 ∷ [])
      (record half_read { pending_read_buffer = [] })
      (read_next_packet second_half half_read)
read_next_packet-ReadsWell_example = read_next_packet-ReadsWell second_half half_read refl

-- A turn in which nothing arrives.
abbrev quiet_turn : Round
quiet_turn = record {
  first_look = 6;
  second_look = 7;
  noted_at = 8;
  chunk = timed_out;
  ping_written = true;
}

one_byte_is_no_packet : decode_packet (208 ∷ []) ≡ ok none
unfolding decode_packet
one_byte_is_no_packet = refl

two_silent_turns_example :
    EndsInSilence (208 ∷ []) (read_loop (quiet_turn ∷ quiet_turn ∷ []) (208 ∷ []) half_read)
two_silent_turns_example =
    two_silent_turns quiet_turn quiet_turn [] (208 ∷ []) half_read refl refl
      (λ e. absurd (ground arith)) one_byte_is_no_packet refl refl refl

-- A PUBLISH of QoS 1 comes before the PUBACK that is waited for.
abbrev publish_first : Client
publish_first = record {
  state = record half_read {
    pending_read_buffer = 50 ∷ 7 ∷ 0 ∷ 1 ∷ 97 ∷ 0 ∷ 7 ∷ 0 ∷ 120 ∷ 64 ∷ 2 ∷ 0 ∷ 1 ∷ [];
  };
  sent = [];
}

abbrev no_rounds : Call
no_rounds = record { rounds = []; now = 9; ack_taken = true }

abbrev two_calls : List Call
two_calls = no_rounds ∷ no_rounds ∷ []

waits_answer_example :
    Answered (puback_verdict 1) two_calls publish_first (wait_for_puback 1 two_calls publish_first)
    × Answered
        (suback_verdict 1)
        two_calls
        publish_first
        (wait_for_suback 1 two_calls publish_first)
    × Answered
        (unsuback_verdict 1)
        two_calls
        publish_first
        (wait_for_unsuback 1 two_calls publish_first)
    × (puback_verdict 1 (pub_ack 1 0) ≡ some true ↔ IsPuback 1 (pub_ack 1 0) true)
    × (suback_verdict 1 (pub_ack 1 0) ≡ some true ↔ IsSuback 1 (pub_ack 1 0) true)
    × (unsuback_verdict 1 (pub_ack 1 0) ≡ some true ↔ IsUnsuback 1 (pub_ack 1 0) true)
waits_answer_example = waits_answer 1 two_calls publish_first (pub_ack 1 0) true
