-- ===== src/Mqtt/Client/Waiting/Verdicts.antt =====
-- upstream.rs: which packet a wait is for, and what it says.
use pd_edge.Common.{
  ℕ, List, [], ◌∷◌, none, some, Bool, true, false, not, ◌&&◌, ◌==◌, ltb, ◌≡◌, ◌↔◌, refl, sym, ap,
  ◌∙◌, if◌then◌else◌, arith, Bool-cases, inl, inr,
}
use mathlib.Core.Path.{subst}
use pd_edge.Mqtt.Codec.{MqttIncomingPacket}
use pd_edge.Mqtt.Client.Waiting.{any_rejected, puback_verdict, suback_verdict, unsuback_verdict}

-- Every reason code of the list is below 128.
abbrev pub all_granted : List ℕ → Bool
all_granted [] = true
all_granted (code ∷ codes) = ltb code 128 && all_granted codes

not-any_rejected : (codes : List ℕ) → not (any_rejected codes) ≡ all_granted codes
unfolding any_rejected
not-any_rejected [] = refl
not-any_rejected (code ∷ codes) = elim (Bool-cases (ltb code 128)) [
  | inl e ↦ rw e (not-any_rejected codes)
  | inr e ↦ rw e refl
]

if_some : (b v w : Bool) → (if b then some v else none) ≡ some w → (b ≡ true) × (v ≡ w)
if_some true v w e = (refl, ground (arith, e))
if_some false v w e = absurd (ground (arith, e))

same_id : (n : ℕ) → (n == n) ≡ true
same_id n = ground arith

-- A PUBACK that is waited for, and whether it accepts.
abbrev pub IsPuback : ℕ → MqttIncomingPacket → Bool → Type 0
IsPuback expected p says =
    (code : ℕ) × (p ≡ MqttIncomingPacket.pub_ack expected code) × (ltb code 128 ≡ says)

pub puback_verdict_iff :
    (expected : ℕ) (p : MqttIncomingPacket) (says : Bool)
    → puback_verdict expected p ≡ some says ↔ IsPuback expected p says
unfolding puback_verdict
puback_verdict_iff expected p says = (
  forward p,
  λ ((code, is, e) : IsPuback expected p says).
      subst (λ p. puback_verdict expected p ≡ some says) (sym is)
        (rw (same_id expected) (ap some e)),
)
  where
    forward :
        (p : MqttIncomingPacket) → puback_verdict expected p ≡ some says → IsPuback expected p says
    forward (MqttIncomingPacket.conn_ack code) e = absurd (ground (arith, e))
    forward (MqttIncomingPacket.publish topic payload qos retain dup packet_id) e =
        absurd (ground (arith, e))
    forward (MqttIncomingPacket.pub_ack packet_id code) e =
        let (same, verdict) = if_some (packet_id == expected) _ says e in
        let at : packet_id ≡ expected = ground (arith, same) in
        (code, ap (λ id. MqttIncomingPacket.pub_ack id code) at, verdict)
    forward (MqttIncomingPacket.sub_ack packet_id codes) e = absurd (ground (arith, e))
    forward (MqttIncomingPacket.unsub_ack packet_id codes) e = absurd (ground (arith, e))
    forward MqttIncomingPacket.ping_resp e = absurd (ground (arith, e))
    forward (MqttIncomingPacket.disconnect code) e = absurd (ground (arith, e))

-- A SUBACK that is waited for, and whether it accepts.
abbrev pub IsSuback : ℕ → MqttIncomingPacket → Bool → Type 0
IsSuback expected p says =
    (codes : List ℕ) × (p ≡ MqttIncomingPacket.sub_ack expected codes) × (all_granted codes ≡ says)

pub suback_verdict_iff :
    (expected : ℕ) (p : MqttIncomingPacket) (says : Bool)
    → suback_verdict expected p ≡ some says ↔ IsSuback expected p says
unfolding suback_verdict
suback_verdict_iff expected p says = (
  forward p,
  λ ((codes, is, e) : IsSuback expected p says).
      subst (λ p. suback_verdict expected p ≡ some says) (sym is)
        (rw (same_id expected) (ap some (not-any_rejected codes ∙ e))),
)
  where
    forward :
        (p : MqttIncomingPacket) → suback_verdict expected p ≡ some says → IsSuback expected p says
    forward (MqttIncomingPacket.conn_ack code) e = absurd (ground (arith, e))
    forward (MqttIncomingPacket.publish topic payload qos retain dup packet_id) e =
        absurd (ground (arith, e))
    forward (MqttIncomingPacket.pub_ack packet_id code) e = absurd (ground (arith, e))
    forward (MqttIncomingPacket.sub_ack packet_id codes) e =
        let (same, verdict) = if_some (packet_id == expected) _ says e in
        let at : packet_id ≡ expected = ground (arith, same) in
        (
          codes,
          ap (λ id. MqttIncomingPacket.sub_ack id codes) at,
          sym (not-any_rejected codes) ∙ verdict,
        )
    forward (MqttIncomingPacket.unsub_ack packet_id codes) e = absurd (ground (arith, e))
    forward MqttIncomingPacket.ping_resp e = absurd (ground (arith, e))
    forward (MqttIncomingPacket.disconnect code) e = absurd (ground (arith, e))

-- A UNSUBACK that is waited for, and whether it accepts.
abbrev pub IsUnsuback : ℕ → MqttIncomingPacket → Bool → Type 0
IsUnsuback expected p says =
    (codes : List ℕ) × (p ≡ MqttIncomingPacket.unsub_ack expected codes)
    × (all_granted codes ≡ says)

pub unsuback_verdict_iff :
    (expected : ℕ) (p : MqttIncomingPacket) (says : Bool)
    → unsuback_verdict expected p ≡ some says ↔ IsUnsuback expected p says
unfolding unsuback_verdict
unsuback_verdict_iff expected p says = (
  forward p,
  λ ((codes, is, e) : IsUnsuback expected p says).
      subst (λ p. unsuback_verdict expected p ≡ some says) (sym is)
        (rw (same_id expected) (ap some (not-any_rejected codes ∙ e))),
)
  where
    forward :
        (p : MqttIncomingPacket)
        → unsuback_verdict expected p ≡ some says
        → IsUnsuback expected p says
    forward (MqttIncomingPacket.conn_ack code) e = absurd (ground (arith, e))
    forward (MqttIncomingPacket.publish topic payload qos retain dup packet_id) e =
        absurd (ground (arith, e))
    forward (MqttIncomingPacket.pub_ack packet_id code) e = absurd (ground (arith, e))
    forward (MqttIncomingPacket.sub_ack packet_id codes) e = absurd (ground (arith, e))
    forward (MqttIncomingPacket.unsub_ack packet_id codes) e =
        let (same, verdict) = if_some (packet_id == expected) _ says e in
        let at : packet_id ≡ expected = ground (arith, same) in
        (
          codes,
          ap (λ id. MqttIncomingPacket.unsub_ack id codes) at,
          sym (not-any_rejected codes) ∙ verdict,
        )
    forward MqttIncomingPacket.ping_resp e = absurd (ground (arith, e))
    forward (MqttIncomingPacket.disconnect code) e = absurd (ground (arith, e))
