-- ===== src/Tests/Session.antt =====
-- model.rs: the theorems on a connection, at concrete connections.
use pd_edge.Mqtt.Session.{note_ping_response_received}
use pd_edge.Mqtt.Session.{note_ping_request_sent}
use pd_edge.Common.{◌-◌}
use pd_edge.Mqtt.Session.{note_packet_activity}
use pd_edge.Common.{◌≡◌, ◌↔◌, ◌⊎◌, ◌≤◌, ◌+◌, ◌*◌, refl, ℕ, [], ◌∷◌, some, true, get_elem?, arith}
use pd_edge.Common.Bytes.{text}
use pd_edge.Mqtt.Session.{
  MqttConnectionState, default_state, open_phase, next_keep_alive_wait, nanos_per_second,
}
use pd_edge.Mqtt.Session.PacketIds.{take_packet_ids, IsPacketId, take_packet_ids_distinct}
use pd_edge.Mqtt.Session.{note_packet_activity, note_ping_request_sent, note_ping_response_received}
use pd_edge.Common.{◌-◌, ◌+◌}
use pd_edge.Mqtt.Session.KeepAlive.{next_keep_alive_wait_after}
use pd_edge.Mqtt.Session.Run.{
  IsWellFormed, apply, apply_open, Opens, Leaves, run, run-IsWellFormed, default-IsWellFormed,
  marks_open, marks_failed, sets_target, takes_packet_id,
}

-- An open connection, active 5 seconds after the clock's start, about to use the last packet id.
abbrev open_connection : MqttConnectionState
open_connection = record default_state {
  phase = open_phase;
  present = true;
  next_packet_id = 65535;
  last_activity_at = some 5000000000;
}

run-IsWellFormed_example : IsWellFormed (
    run
      (sets_target (text "broker") 1883 ∷ marks_open 7 ∷ takes_packet_id ∷ marks_failed [] ∷ [])
      default_state)
run-IsWellFormed_example =
    run-IsWellFormed
      (sets_target (text "broker") 1883 ∷ marks_open 7 ∷ takes_packet_id ∷ marks_failed [] ∷ [])
      default_state default-IsWellFormed

take_packet_ids_distinct_example :
    (a : ℕ) × (b : ℕ) × (get_elem? (take_packet_ids 3 open_connection) 0 ≡ some a)
    × (get_elem? (take_packet_ids 3 open_connection) 2 ≡ some b)
    × IsPacketId a
    × IsPacketId b
    × (a ≡ b ↔ ◌≡◌ {A = ℕ} 0 2)
take_packet_ids_distinct_example =
    take_packet_ids_distinct 3 0 2 open_connection (omega arith) (omega arith) (omega arith)
      (omega arith) (omega arith)

abbrev interval : ℕ
interval = 60 * nanos_per_second

next_keep_alive_wait_after_example :
    (next_keep_alive_wait 8000000000 (note_packet_activity 6000000000 open_connection)
      ≡ some (6000000000 + interval - 8000000000))
    × (next_keep_alive_wait 8000000000 (note_ping_request_sent 6000000000 open_connection)
        ≡ some (6000000000 + interval - 8000000000))
    × (next_keep_alive_wait 8000000000 (note_ping_response_received 6000000000 open_connection)
        ≡ some (6000000000 + interval - 8000000000))
    × (next_keep_alive_wait 8000000000 (note_packet_activity 6000000000 open_connection) ≡ some 0
        ↔ 6000000000 + interval ≤ 8000000000)
next_keep_alive_wait_after_example =
    next_keep_alive_wait_after 6000000000 8000000000 open_connection refl
      (λ e. absurd (ground arith)) (omega arith)

apply_open_example :
    ((apply (sets_target (text "broker") 1883) open_connection).phase ≡ open_phase
      → (open_connection.phase ≡ open_phase) ⊎ Opens (sets_target (text "broker") 1883))
    × (open_connection.phase ≡ open_phase
        → ((apply (sets_target (text "broker") 1883) open_connection).phase ≡ open_phase)
          ⊎ Leaves (sets_target (text "broker") 1883))
apply_open_example = apply_open (sets_target (text "broker") 1883) open_connection
