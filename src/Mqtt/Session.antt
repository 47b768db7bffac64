-- ===== src/Mqtt/Session.antt =====
-- src/abi_impl/mqtt/model.rs: the state of one MQTT connection and its transitions.
-- A time is a number of nanoseconds, and `Instant::now()` is an argument. `Uuid::new_v4` is an
-- argument too. Of `MqttEvent` the constructors are kept, without `into_value`.
use pd_edge.Common.{
  ℕ, ◌+◌, ◌-◌, ◌*◌, List, [], ◌++◌, Option, none, some, Bool, true, false, ◌==◌, if◌then◌else◌,
  is_empty,
}
use pd_edge.Common.Bytes.{Text, text, text_eq, lowercase_byte}
pub mod Run
pub mod PacketIds
pub mod KeepAlive

pub data MqttScheme : Type 0 where
  mqtt mqtts : MqttScheme

unfoldable pub default_port : MqttScheme → ℕ
default_port mqtt = 1883
default_port mqtts = 8883

unfoldable pub uses_tls : MqttScheme → Bool
uses_tls mqtt = false
uses_tls mqtts = true

pub data MqttPhase : Type 0 where
  inactive configured carrier_attached connect_sent open_phase closed failed : MqttPhase

-- `Tls` is there with the feature `tls`, which is on here.
pub data MqttCarrierAttachment : Type 0 where
  tcp : (stream : ℕ) → MqttCarrierAttachment
  tls : (session : ℕ) → MqttCarrierAttachment

pub data MqttEvent : Type 0 where
  publish : (topic : Text) (payload : List ℕ) (qos : ℕ) (retain dup : Bool) → MqttEvent
  closed : (reason : Text) → MqttEvent
  failed : (reason : Text) → MqttEvent

pub record MqttConnectionState : Type 0 where
  pub phase : MqttPhase
  pub present : Bool
  pub scheme : MqttScheme
  pub host : Option Text
  pub port : Option ℕ
  pub client_id : Text
  pub username : Option Text
  pub password : Option Text
  pub keep_alive_secs : ℕ
  pub clean_start : Bool
  pub next_packet_id : ℕ
  pub carrier : Option MqttCarrierAttachment
  pub failure_message : Option Text
  pub last_activity_at : Option ℕ
  pub ping_response_pending : Bool
  pub pending_read_buffer : List ℕ
  pub pending_events : List MqttEvent

abbrev pub default_state : MqttConnectionState
default_state = record {
  phase = inactive;
  present = false;
  scheme = mqtt;
  host = none;
  port = none;
  client_id = [];
  username = none;
  password = none;
  keep_alive_secs = 60;
  clean_start = true;
  next_packet_id = 1;
  carrier = none;
  failure_message = none;
  last_activity_at = none;
  ping_response_pending = false;
  pending_read_buffer = [];
  pending_events = [];
}

unfoldable pub configured_phase : MqttPhase → MqttPhase
configured_phase inactive = configured
configured_phase MqttPhase.closed = configured
configured_phase MqttPhase.failed = configured
configured_phase phase = phase

unfoldable pub configure : MqttConnectionState → MqttConnectionState
unfolding configured_phase
configure s = record s { present = true; failure_message = none; phase = configured_phase s.phase }

abbrev or_default : Option ℕ → ℕ → Option ℕ
or_default none d = some d
or_default (some port) d = some port

unfoldable pub set_scheme : MqttScheme → MqttConnectionState → MqttConnectionState
unfolding configure default_port
set_scheme scheme s = record (configure s) {
  scheme = scheme;
  port = or_default s.port (default_port scheme);
}

unfoldable pub set_target : Text → ℕ → MqttConnectionState → MqttConnectionState
unfolding configure
set_target host port s = record (configure s) { host = some host; port = some port }

unfoldable pub set_client_id : Text → MqttConnectionState → MqttConnectionState
unfolding configure
set_client_id client_id s = record (configure s) { client_id = client_id }

abbrev pub non_empty : Text → Option Text
non_empty value = if is_empty value then none else some value

unfoldable pub set_username : Text → MqttConnectionState → MqttConnectionState
unfolding configure
set_username username s = record (configure s) { username = non_empty username }

unfoldable pub set_password : Text → MqttConnectionState → MqttConnectionState
unfolding configure
set_password password s = record (configure s) { password = non_empty password }

unfoldable pub set_keep_alive_secs : ℕ → MqttConnectionState → MqttConnectionState
unfolding configure
set_keep_alive_secs keep_alive_secs s = record (configure s) { keep_alive_secs = keep_alive_secs }

unfoldable pub set_clean_start : Bool → MqttConnectionState → MqttConnectionState
unfolding configure
set_clean_start enabled s = record (configure s) { clean_start = enabled }

unfoldable pub attach_carrier : MqttCarrierAttachment → MqttConnectionState → MqttConnectionState
unfolding configure
attach_carrier carrier s = record (configure s) {
  carrier = some carrier;
  last_activity_at = none;
  ping_response_pending = false;
  pending_read_buffer = [];
  pending_events = [];
  phase = carrier_attached;
}

unfoldable pub note_connect_sent : MqttConnectionState → MqttConnectionState
unfolding configure
note_connect_sent s = record (configure s) { phase = connect_sent }

unfoldable pub mark_open : (now : ℕ) → MqttConnectionState → MqttConnectionState
unfolding configure
mark_open now s = record (configure s) {
  failure_message = none;
  last_activity_at = some now;
  ping_response_pending = false;
  phase = open_phase;
}

unfoldable pub mark_closed : MqttConnectionState → MqttConnectionState
mark_closed s = record s { ping_response_pending = false; phase = MqttPhase.closed }

unfoldable pub mark_failed : Text → MqttConnectionState → MqttConnectionState
mark_failed message s = record s {
  present = true;
  phase = MqttPhase.failed;
  failure_message = some message;
  ping_response_pending = false;
}

unfoldable pub take_carrier :
    MqttConnectionState → Option MqttCarrierAttachment × MqttConnectionState
take_carrier s = (s.carrier, record s { carrier = none })

abbrev pub nanos_per_second : ℕ
nanos_per_second = 1000000000

-- `saturating_sub` and `saturating_duration_since` stop at 0, as `-` does here.
abbrev wait_left : ℕ → Option ℕ → (now : ℕ) → ℕ
wait_left interval none now = interval
wait_left interval (some last_activity_at) now = interval - (now - last_activity_at)

abbrev is_open : MqttPhase → Bool
is_open open_phase = true
is_open _ = false

unfoldable pub next_keep_alive_wait : (now : ℕ) → MqttConnectionState → Option ℕ
next_keep_alive_wait now s =
    if is_open s.phase
    then (if s.keep_alive_secs == 0
        then none
        else some (wait_left (s.keep_alive_secs * nanos_per_second) s.last_activity_at now))
    else none

-- `uuid` is the text of a fresh UUID.
unfoldable pub ensure_client_id : (uuid : Text) → MqttConnectionState → Text × MqttConnectionState
ensure_client_id uuid s =
    if is_empty s.client_id
    then (text "pd-edge-" ++ uuid, record s { client_id = text "pd-edge-" ++ uuid })
    else (s.client_id, s)

-- The packet id handed out, and the one stored for the next call: `u16::MAX` is 65535.
unfoldable pub current_packet_id : ℕ → ℕ
current_packet_id id = if id == 0 then 1 else id

unfoldable pub following_packet_id : ℕ → ℕ
following_packet_id id = if id == 65535 then 1 else id + 1

unfoldable pub take_packet_id : MqttConnectionState → ℕ × MqttConnectionState
unfolding current_packet_id following_packet_id
take_packet_id s =
    let next = current_packet_id s.next_packet_id in
    (next, record s { next_packet_id = following_packet_id next })

unfoldable pub note_packet_activity : (now : ℕ) → MqttConnectionState → MqttConnectionState
note_packet_activity now s = record s { last_activity_at = some now; ping_response_pending = false }

unfoldable pub note_ping_request_sent : (now : ℕ) → MqttConnectionState → MqttConnectionState
note_ping_request_sent now s = record s {
  last_activity_at = some now;
  ping_response_pending = true;
}

unfoldable pub note_ping_response_received : (now : ℕ) → MqttConnectionState → MqttConnectionState
note_ping_response_received now s = record s {
  last_activity_at = some now;
  ping_response_pending = false;
}
