-- ===== src/Mqtt/Session/KeepAlive.antt =====
-- model.rs: `next_keep_alive_wait`.
use pd_edge.Mqtt.Session.{note_ping_response_received}
use pd_edge.Mqtt.Session.{note_ping_request_sent}
use pd_edge.Mqtt.Session.{note_packet_activity}
use pd_edge.Common.{
  ℕ, ◌+◌, ◌-◌, ap, refl, ◌∙◌, ◌*◌, ◌≤◌, ◌≡◌, ◌↔◌, ◌≢◌, ◌⊎◌, none, some, arith, inl, inr, Bool-cases,
  ◌==◌,
}
use pd_edge.Mqtt.Session.{MqttConnectionState, open_phase, next_keep_alive_wait, nanos_per_second}

-- There is no deadline exactly if the connection is not open or the keep-alive is switched off.
pub next_keep_alive_wait-eq-none_iff :
    (now : ℕ) (s : MqttConnectionState)
    → (next_keep_alive_wait now s ≡ none) ↔ ((s.phase ≢ open_phase) ⊎ (s.keep_alive_secs ≡ 0))
unfolding next_keep_alive_wait
next_keep_alive_wait-eq-none_iff now s = (
  λ e. elim (Bool-cases (s.keep_alive_secs == 0)) [
    | inl off ↦ inr (ground arith)
    | inr on ↦ inl (λ p. ground (arith, p))
  ],
  λ e. ground arith,
)

-- A wait that is looked up later is what is left of the interval.
wait_from :
    (last now : ℕ) (s : MqttConnectionState)
    → s.last_activity_at ≡ some last
    → s.phase ≡ open_phase
    → s.keep_alive_secs ≢ 0
    → last ≤ now
    → next_keep_alive_wait now s ≡ some (last + s.keep_alive_secs * nanos_per_second - now)
unfolding next_keep_alive_wait
wait_from last now s at opened on past = ground arith

-- On an open connection with a keep-alive, at a time that is not before the last activity noted (a
-- packet, a ping sent or its answer), the wait is exactly what is left of the interval from that activity
-- on, and 0 exactly once the interval is over.
pub next_keep_alive_wait_after :
    (last now : ℕ) (s : MqttConnectionState)
    → s.phase ≡ open_phase
    → s.keep_alive_secs ≢ 0
    → last ≤ now
    → (next_keep_alive_wait now (note_packet_activity last s)
        ≡ some (last + s.keep_alive_secs * nanos_per_second - now))
      × (next_keep_alive_wait now (note_ping_request_sent last s)
          ≡ some (last + s.keep_alive_secs * nanos_per_second - now))
      × (next_keep_alive_wait now (note_ping_response_received last s)
          ≡ some (last + s.keep_alive_secs * nanos_per_second - now))
      × (next_keep_alive_wait now (note_packet_activity last s) ≡ some 0
          ↔ last + s.keep_alive_secs * nanos_per_second ≤ now)
unfolding note_packet_activity note_ping_request_sent note_ping_response_received
next_keep_alive_wait_after last now s opened on past =
    let noted = wait_from last now (note_packet_activity last s) refl opened on past in
    (
      noted,
      wait_from last now (note_ping_request_sent last s) refl opened on past,
      wait_from last now (note_ping_response_received last s) refl opened on past,
      (λ e. ground (arith, noted, e), λ e. noted ∙ ap some (omega (arith, e))),
    )
