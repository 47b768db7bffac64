-- ===== src/Http/WebSocket.antt =====
-- src/abi_impl/websocket/state.rs: `WebSocketConnectionState`, and `OutboundWebSocketIoState`, which reads
-- the messages of a connection. The io is shared, so the state holds its number, and what a look at it
-- finds is an argument. Header values are what `get` finds under a name.
pub mod Reading
pub mod Coherent
use pd_edge.Common.{
  ℕ, List, [], ◌∷◌, Option, none, some, Bool, true, false, not, ◌&&◌, ◌||◌, if◌then◌else◌, is_empty,
}
use pd_edge.Common.Bytes.{Text, text, text_eq, lowercase}
use pd_edge.Common.Whitespace.{trim}
use pd_edge.Http.Http1.Writer.{split_commas, is_visible}

pub data WebSocketPhase : Type 0 where
  inactive upgrade_observed upgrade_prepared handshake_started : WebSocketPhase
  open_phase closing closed failed : WebSocketPhase

pub data WebSocketUpstreamScheme : Type 0 where
  ws wss : WebSocketUpstreamScheme

unfoldable pub uses_tls : WebSocketUpstreamScheme → Bool
uses_tls ws = false
uses_tls wss = true

-- `None` where the source has an error.
unfoldable pub parse_scheme : Text → Option WebSocketUpstreamScheme
parse_scheme value =
    let label = lowercase (trim value) in
    if text_eq label (text "ws")
    then some ws
    else if text_eq label (text "wss")
    then some wss
    else none

pub record WebSocketConnectionState : Type 0 where
  pub phase : WebSocketPhase
  pub present : Bool
  pub target_host : Option Text
  pub target_port : Option ℕ
  pub target_scheme : WebSocketUpstreamScheme
  pub requested_subprotocols : List Text
  pub negotiated_subprotocol : Option Text
  pub failure_message : Option Text
  pub close_code : Option ℕ
  pub close_reason : Option Text
  pub io : Option ℕ

unfoldable pub default_connection : WebSocketConnectionState
default_connection = record {
  phase = inactive;
  present = false;
  target_host = none;
  target_port = none;
  target_scheme = ws;
  requested_subprotocols = [];
  negotiated_subprotocol = none;
  failure_message = none;
  close_code = none;
  close_reason = none;
  io = none;
}

-- `get(name).and_then(|value| value.to_str().ok())`
unfoldable pub visible : Option Text → Option Text
visible none = none
visible (some value) = if is_visible value then some value else none

unfoldable pub has_token : Text → List Text → Bool
has_token token [] = false
has_token token (part ∷ parts) = text_eq (lowercase (trim part)) token || has_token token parts

unfoldable pub trimmed_parts : List Text → List Text
trimmed_parts [] = []
trimmed_parts (part ∷ parts) =
    let later = trimmed_parts parts in if is_empty (trim part) then later else trim part ∷ later

unfoldable pub is_some : Option Text → Bool
is_some none = false
is_some (some value) = true

module _ (get : Text → Option Text) where
  unfoldable pub is_downstream_websocket_upgrade : Bool
  is_downstream_websocket_upgrade =
      let connection_has_upgrade : Bool = elim (visible (get (text "connection"))) [
        | none ↦ false
        | some value ↦ has_token (text "upgrade") (split_commas [] value)
      ] in
      let upgrade_is_websocket : Bool = elim (visible (get (text "upgrade"))) [
        | none ↦ false
        | some value ↦ text_eq (lowercase value) (text "websocket")
      ] in
      connection_has_upgrade && upgrade_is_websocket && is_some (get (text "sec-websocket-key"))

  unfoldable pub parse_subprotocols_header : List Text
  parse_subprotocols_header = elim (visible (get (text "sec-websocket-protocol"))) [
    | none ↦ []
    | some value ↦ trimmed_parts (split_commas [] value)
  ]

  unfoldable pub for_http_request : WebSocketConnectionState
  for_http_request =
      if not is_downstream_websocket_upgrade
      then default_connection
      else record default_connection {
        phase = upgrade_observed;
        present = true;
        requested_subprotocols = parse_subprotocols_header;
      }

unfoldable pub prepared_phase : WebSocketPhase → WebSocketPhase
prepared_phase inactive = upgrade_prepared
prepared_phase upgrade_observed = upgrade_prepared
prepared_phase phase = phase

unfoldable pub prepare_outbound : WebSocketConnectionState → WebSocketConnectionState
prepare_outbound s = record s {
  present = true;
  failure_message = none;
  phase = prepared_phase s.phase;
}

unfoldable pub set_target_host_port : Text → ℕ → WebSocketConnectionState → WebSocketConnectionState
set_target_host_port host port s = record (prepare_outbound s) {
  target_host = some host;
  target_port = some port;
}

unfoldable pub set_target_scheme :
    WebSocketUpstreamScheme → WebSocketConnectionState → WebSocketConnectionState
set_target_scheme scheme s = record (prepare_outbound s) { target_scheme = scheme }

unfoldable pub set_requested_subprotocols :
    List Text → WebSocketConnectionState → WebSocketConnectionState
set_requested_subprotocols subprotocols s = record (prepare_outbound s) {
  requested_subprotocols = subprotocols;
}

unfoldable pub note_handshake_started : WebSocketConnectionState → WebSocketConnectionState
note_handshake_started s = record (prepare_outbound s) {
  phase = handshake_started;
  negotiated_subprotocol = none;
  close_code = none;
  close_reason = none;
  io = none;
}

unfoldable pub mark_open : ℕ → Option Text → WebSocketConnectionState → WebSocketConnectionState
mark_open io negotiated_subprotocol s = record s {
  present = true;
  phase = open_phase;
  negotiated_subprotocol = negotiated_subprotocol;
  failure_message = none;
  io = some io;
}

unfoldable pub closing_phase : WebSocketPhase → WebSocketPhase
closing_phase open_phase = closing
closing_phase phase = phase

unfoldable pub note_closing : WebSocketConnectionState → WebSocketConnectionState
note_closing s = record s { phase = closing_phase s.phase }

unfoldable pub mark_closed :
    Option ℕ → Option Text → WebSocketConnectionState → WebSocketConnectionState
mark_closed code reason s = record s { phase = closed; close_code = code; close_reason = reason }

unfoldable pub mark_failed : Text → WebSocketConnectionState → WebSocketConnectionState
mark_failed message s = record s {
  phase = failed;
  present = true;
  failure_message = some message;
  io = none;
}

-- The io without its stream.
pub record OutboundWebSocketIoState : Type 0 where
  pub eof : Bool
  pub close_code : Option ℕ
  pub close_reason : Option Text

unfoldable pub closed_by :
    OutboundWebSocketIoState → WebSocketConnectionState → WebSocketConnectionState
closed_by io s = if io.eof then mark_closed io.close_code io.close_reason s else s

-- `seen` is what `try_lock` gives: nothing while somebody else has the io locked.
unfoldable pub refresh_close_state :
    Option OutboundWebSocketIoState → WebSocketConnectionState → WebSocketConnectionState
refresh_close_state seen s = elim s.io [
  | none ↦ s
  | some io ↦ elim seen [ none ↦ s | some found ↦ closed_by found s ]
]

unfoldable pub has_ended : WebSocketPhase → Bool
has_ended closed = true
has_ended failed = true
has_ended phase = false

unfoldable pub eof :
    Option OutboundWebSocketIoState → WebSocketConnectionState → Bool × WebSocketConnectionState
eof seen s = let refreshed = refresh_close_state seen s in (has_ended refreshed.phase, refreshed)

unfoldable pub is_open_phase : WebSocketPhase → Bool
is_open_phase open_phase = true
is_open_phase phase = false

unfoldable pub has_io : Option ℕ → Bool
has_io none = false
has_io (some io) = true

unfoldable pub is_open : WebSocketConnectionState → Bool
is_open s = is_open_phase s.phase && has_io s.io
