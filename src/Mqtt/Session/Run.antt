-- ===== src/Mqtt/Session/Run.antt =====
-- model.rs: sequences of transitions of one connection, in any order.
use pd_edge.Common.{inl, inr, ◌⊎◌, ℕ, ◌≤◌, ◌≡◌, ◌≢◌, List, [], ◌∷◌, none, Bool, true, arith}
use pd_edge.Mqtt.Session.{
  open_phase, default_state, MqttScheme, MqttPhase, inactive, MqttCarrierAttachment,
  MqttConnectionState, set_scheme, set_target, set_client_id, set_username, set_password,
  set_keep_alive_secs, set_clean_start, attach_carrier, note_connect_sent, mark_open, mark_closed,
  mark_failed, take_carrier, ensure_client_id, take_packet_id, note_packet_activity,
  note_ping_request_sent, note_ping_response_received, current_packet_id, following_packet_id,
}
use pd_edge.Common.Bytes.{Text}

-- Each method of `MqttConnectionState` that changes it, with its arguments.
pub data Transition : Type 0 where
  sets_scheme : MqttScheme → Transition
  sets_target : (host : Text) (port : ℕ) → Transition
  sets_client_id sets_username sets_password : Text → Transition
  sets_keep_alive_secs : ℕ → Transition
  sets_clean_start : Bool → Transition
  attaches_carrier : MqttCarrierAttachment → Transition
  notes_connect_sent : Transition
  marks_open : (now : ℕ) → Transition
  marks_closed : Transition
  marks_failed : Text → Transition
  takes_carrier : Transition
  ensures_client_id : (uuid : Text) → Transition
  takes_packet_id : Transition
  notes_packet_activity notes_ping_request_sent notes_ping_response_received :
      (now : ℕ) → Transition

pub apply : Transition → MqttConnectionState → MqttConnectionState
apply (sets_scheme scheme) s = set_scheme scheme s
apply (sets_target host port) s = set_target host port s
apply (sets_client_id id) s = set_client_id id s
apply (sets_username name) s = set_username name s
apply (sets_password word) s = set_password word s
apply (sets_keep_alive_secs secs) s = set_keep_alive_secs secs s
apply (sets_clean_start enabled) s = set_clean_start enabled s
apply (attaches_carrier carrier) s = attach_carrier carrier s
apply notes_connect_sent s = note_connect_sent s
apply (marks_open now) s = mark_open now s
apply marks_closed s = mark_closed s
apply (marks_failed message) s = mark_failed message s
apply takes_carrier s = (take_carrier s).1
apply (ensures_client_id uuid) s = (ensure_client_id uuid s).1
apply takes_packet_id s = (take_packet_id s).1
apply (notes_packet_activity now) s = note_packet_activity now s
apply (notes_ping_request_sent now) s = note_ping_request_sent now s
apply (notes_ping_response_received now) s = note_ping_response_received now s

pub run : List Transition → MqttConnectionState → MqttConnectionState
run [] s = s
run (t ∷ ts) s = run ts (apply t s)

pub record IsWellFormed (s : MqttConnectionState) : Type 0 where
  pub failed_with_message : s.phase ≡ MqttPhase.failed → s.failure_message ≢ none
  pub present_in_use : s.phase ≢ inactive → s.phase ≢ MqttPhase.closed → s.present ≡ true
  pub id_positive : 1 ≤ s.next_packet_id
  pub id_in_range : s.next_packet_id ≤ 65535

all_transitions : Unit {0}
unfolding apply set_scheme set_target set_client_id set_username set_password set_keep_alive_secs
    set_clean_start attach_carrier note_connect_sent mark_open mark_closed mark_failed take_carrier
    ensure_client_id take_packet_id note_packet_activity note_ping_request_sent
    note_ping_response_received current_packet_id following_packet_id
all_transitions = tt

apply-IsWellFormed :
    (t : Transition) (s : MqttConnectionState) → IsWellFormed s → IsWellFormed (apply t s)
unfolding all_transitions
apply-IsWellFormed (sets_scheme scheme) s w = ground arith
apply-IsWellFormed t s w = ground arith

-- Whatever is called, in whatever order, on a well-formed connection leaves it well-formed: a failed
-- connection has a message, a connection is present in every phase but inactive and closed, and the
-- next packet id lies in 1 to 65535.
pub run-IsWellFormed :
    (ts : List Transition) (s : MqttConnectionState) → IsWellFormed s → IsWellFormed (run ts s)
unfolding run
run-IsWellFormed [] s w = w
run-IsWellFormed (t ∷ ts) s w = run-IsWellFormed ts (apply t s) (apply-IsWellFormed t s w)

pub default-IsWellFormed : IsWellFormed default_state
default-IsWellFormed = ground arith

-- The call that opens a connection, and those that end its being open.
abbrev pub Opens : Transition → Type 0
Opens (marks_open now) = Unit
Opens _ = ⊥

abbrev pub Leaves : Transition → Type 0
Leaves (attaches_carrier carrier) = Unit
Leaves notes_connect_sent = Unit
Leaves marks_closed = Unit
Leaves (marks_failed message) = Unit
Leaves _ = ⊥

apply-open_phase :
    (t : Transition) (s : MqttConnectionState)
    → (apply t s).phase ≡ open_phase
    → (s.phase ≡ open_phase) ⊎ Opens t
unfolding all_transitions
apply-open_phase (marks_open now) s e = inr tt
apply-open_phase t s e = inl (ground arith)

apply-Leaves_open_phase :
    (t : Transition) (s : MqttConnectionState)
    → s.phase ≡ open_phase
    → ((apply t s).phase ≡ open_phase) ⊎ Leaves t
unfolding all_transitions
apply-Leaves_open_phase (attaches_carrier carrier) s e = inr tt
apply-Leaves_open_phase notes_connect_sent s e = inr tt
apply-Leaves_open_phase marks_closed s e = inr tt
apply-Leaves_open_phase (marks_failed message) s e = inr tt
apply-Leaves_open_phase t s e = inl (ground arith)

-- After any method a connection is open only if it was open before or the method is `mark_open`; and
-- one that was open is open still, unless the method is `attach_carrier`, `note_connect_sent`,
-- `mark_closed` or `mark_failed`: configuring it does not touch the phase of an open connection.
pub apply_open :
    (t : Transition) (s : MqttConnectionState)
    → ((apply t s).phase ≡ open_phase → (s.phase ≡ open_phase) ⊎ Opens t)
      × (s.phase ≡ open_phase → ((apply t s).phase ≡ open_phase) ⊎ Leaves t)
apply_open t s = (apply-open_phase t s, apply-Leaves_open_phase t s)
