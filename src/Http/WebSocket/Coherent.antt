-- ===== src/Http/WebSocket/Coherent.antt =====
-- websocket/state.rs: the phase of a connection against its io, its presence and its failure message.
use pd_edge.Common.{arith}
use pd_edge.Common.Bytes.{Text}
use pd_edge.Http.WebSocket.{
  WebSocketConnectionState, WebSocketPhase, inactive, upgrade_observed, upgrade_prepared,
  handshake_started, open_phase, closing, closed, failed, WebSocketUpstreamScheme,
  OutboundWebSocketIoState, prepared_phase, closing_phase, is_open_phase, has_io, has_ended,
  is_some, prepare_outbound, note_handshake_started, note_closing, set_target_host_port,
  set_target_scheme, set_requested_subprotocols, mark_open, refresh_close_state, mark_closed,
  mark_failed, closed_by, for_http_request, default_connection, parse_subprotocols_header,
  is_downstream_websocket_upgrade,
}
use pd_edge.Common.{
  ℕ, List, [], ◌∷◌, Option, none, some, Bool, true, false, not, if◌then◌else◌, ◌≡◌, refl, ◌∙◌, sym,
}

pub data Operation : Type 0 where
  preparing handshaking closing_down : Operation
  targeting : Text → ℕ → Operation
  choosing : WebSocketUpstreamScheme → Operation
  requesting : List Text → Operation
  opening : ℕ → Option Text → Operation
  looking : Option OutboundWebSocketIoState → Operation
  closing_with : Option ℕ → Option Text → Operation
  failing : Text → Operation

unfoldable pub apply : Operation → WebSocketConnectionState → WebSocketConnectionState
apply preparing s = prepare_outbound s
apply handshaking s = note_handshake_started s
apply closing_down s = note_closing s
apply (targeting host port) s = set_target_host_port host port s
apply (choosing scheme) s = set_target_scheme scheme s
apply (requesting subprotocols) s = set_requested_subprotocols subprotocols s
apply (opening io negotiated) s = mark_open io negotiated s
apply (looking seen) s = refresh_close_state seen s
apply (closing_with code reason) s = mark_closed code reason s
apply (failing message) s = mark_failed message s

unfoldable pub run : List Operation → WebSocketConnectionState → WebSocketConnectionState
run [] s = s
run (operation ∷ operations) s = run operations (apply operation s)

-- The phases in which the state may hold an io.
unfoldable pub may_hold_io : WebSocketPhase → Bool
may_hold_io open_phase = true
may_hold_io closing = true
may_hold_io closed = true
may_hold_io phase = false

-- The phases that only a connection in use reaches.
unfoldable pub is_in_use : WebSocketPhase → Bool
is_in_use inactive = false
is_in_use closed = false
is_in_use phase = true

pub record IsConsistent (s : WebSocketConnectionState) : Type 0 where
  pub open_has_io : is_open_phase s.phase ≡ true → has_io s.io ≡ true
  pub io_in_phase : has_io s.io ≡ true → may_hold_io s.phase ≡ true
  pub in_use_present : is_in_use s.phase ≡ true → s.present ≡ true
  pub message_after_end : is_some s.failure_message ≡ true → has_ended s.phase ≡ true

is_open_phase-prepared_phase :
    (p : WebSocketPhase) → is_open_phase (prepared_phase p) ≡ is_open_phase p
unfolding is_open_phase prepared_phase
is_open_phase-prepared_phase inactive = refl
is_open_phase-prepared_phase upgrade_observed = refl
is_open_phase-prepared_phase upgrade_prepared = refl
is_open_phase-prepared_phase handshake_started = refl
is_open_phase-prepared_phase open_phase = refl
is_open_phase-prepared_phase closing = refl
is_open_phase-prepared_phase closed = refl
is_open_phase-prepared_phase failed = refl

may_hold_io-prepared_phase : (p : WebSocketPhase) → may_hold_io (prepared_phase p) ≡ may_hold_io p
unfolding may_hold_io prepared_phase
may_hold_io-prepared_phase inactive = refl
may_hold_io-prepared_phase upgrade_observed = refl
may_hold_io-prepared_phase upgrade_prepared = refl
may_hold_io-prepared_phase handshake_started = refl
may_hold_io-prepared_phase open_phase = refl
may_hold_io-prepared_phase closing = refl
may_hold_io-prepared_phase closed = refl
may_hold_io-prepared_phase failed = refl

-- A phase that `note_closing` leaves is not open, and keeps what the old one allowed.
closing_phase_lem :
    (p : WebSocketPhase)
    → (is_open_phase (closing_phase p) ≡ false)
      × (may_hold_io (closing_phase p) ≡ may_hold_io p)
      × (is_in_use (closing_phase p) ≡ is_in_use p)
      × (has_ended (closing_phase p) ≡ has_ended p)
unfolding is_open_phase closing_phase may_hold_io is_in_use has_ended
closing_phase_lem inactive = (refl, refl, refl, refl)
closing_phase_lem upgrade_observed = (refl, refl, refl, refl)
closing_phase_lem upgrade_prepared = (refl, refl, refl, refl)
closing_phase_lem handshake_started = (refl, refl, refl, refl)
closing_phase_lem open_phase = (refl, refl, refl, refl)
closing_phase_lem closing = (refl, refl, refl, refl)
closing_phase_lem closed = (refl, refl, refl, refl)
closing_phase_lem failed = (refl, refl, refl, refl)

prepare_outbound-IsConsistent :
    {s : WebSocketConnectionState} → IsConsistent s → IsConsistent (prepare_outbound s)
unfolding prepare_outbound is_some
prepare_outbound-IsConsistent {s} ok = record {
  open_has_io = λ e. ok.open_has_io (sym (is_open_phase-prepared_phase s.phase) ∙ e);
  io_in_phase = λ e. may_hold_io-prepared_phase s.phase ∙ ok.io_in_phase e;
  in_use_present = λ e. refl;
  message_after_end = λ e. absurd (ground arith);
}

note_closing-IsConsistent :
    {s : WebSocketConnectionState} → IsConsistent s → IsConsistent (note_closing s)
unfolding note_closing
note_closing-IsConsistent {s} ok =
    let (not_open, holds, uses, ends) = closing_phase_lem s.phase in
    record {
      open_has_io = λ e. absurd (ground arith);
      io_in_phase = λ e. holds ∙ ok.io_in_phase e;
      in_use_present = λ e. ok.in_use_present (sym uses ∙ e);
      message_after_end = λ e. ends ∙ ok.message_after_end e;
    }

mark_closed-IsConsistent :
    (s : WebSocketConnectionState)
    → (code : Option ℕ) → (reason : Option Text) → IsConsistent (mark_closed code reason s)
unfolding mark_closed is_open_phase may_hold_io is_in_use has_ended
mark_closed-IsConsistent s code reason = record {
  open_has_io = λ e. absurd (ground arith);
  io_in_phase = λ e. refl;
  in_use_present = λ e. absurd (ground arith);
  message_after_end = λ e. refl;
}

closed_by-IsConsistent :
    {s : WebSocketConnectionState}
    → (io : OutboundWebSocketIoState) → IsConsistent s
    → IsConsistent (closed_by io s)
unfolding closed_by
closed_by-IsConsistent {s} io ok = at_eof io.eof
  where
    at_eof :
        (b : Bool) → IsConsistent (if b then mark_closed io.close_code io.close_reason s else s)
    at_eof true = mark_closed-IsConsistent s io.close_code io.close_reason
    at_eof false = ok

refresh_close_state-IsConsistent :
    {s : WebSocketConnectionState}
    → (seen : Option OutboundWebSocketIoState) → IsConsistent s
    → IsConsistent (refresh_close_state seen s)
unfolding refresh_close_state
refresh_close_state-IsConsistent {s} seen ok = with_io s.io seen
  where
    with_io :
        (io : Option ℕ)
        → (seen : Option OutboundWebSocketIoState)
        → IsConsistent (elim io [
          | none ↦ s
          | some number ↦ elim seen [ none ↦ s | some found ↦ closed_by found s ]
        ])
    with_io none seen = ok
    with_io (some number) none = ok
    with_io (some number) (some found) = closed_by-IsConsistent found ok

retargeted-IsConsistent :
    {s : WebSocketConnectionState}
    → (host : Option Text) → (port : Option ℕ) → (scheme : WebSocketUpstreamScheme)
    → (subprotocols : List Text) → IsConsistent s
    → IsConsistent (record s {
      target_host = host;
      target_port = port;
      target_scheme = scheme;
      requested_subprotocols = subprotocols;
    })
retargeted-IsConsistent host port scheme subprotocols ok = record {
  open_has_io = ok.open_has_io;
  io_in_phase = ok.io_in_phase;
  in_use_present = ok.in_use_present;
  message_after_end = ok.message_after_end;
}

apply-IsConsistent :
    (operation : Operation)
    → {s : WebSocketConnectionState} → IsConsistent s
    → IsConsistent (apply operation s)
unfolding prepare_outbound apply note_handshake_started set_target_host_port set_target_scheme
    set_requested_subprotocols mark_open mark_failed is_open_phase may_hold_io is_in_use has_ended
    is_some has_io
apply-IsConsistent preparing ok = prepare_outbound-IsConsistent ok
apply-IsConsistent handshaking ok = record {
  open_has_io = λ e. absurd (ground arith);
  io_in_phase = λ e. absurd (ground arith);
  in_use_present = λ e. refl;
  message_after_end = λ e. absurd (ground arith);
}
apply-IsConsistent closing_down ok = note_closing-IsConsistent ok
apply-IsConsistent (targeting host port) {s} ok =
    retargeted-IsConsistent (some host) (some port) s.target_scheme s.requested_subprotocols
      (prepare_outbound-IsConsistent ok)
apply-IsConsistent (choosing scheme) {s} ok =
    retargeted-IsConsistent s.target_host s.target_port scheme s.requested_subprotocols
      (prepare_outbound-IsConsistent ok)
apply-IsConsistent (requesting subprotocols) {s} ok =
    retargeted-IsConsistent s.target_host s.target_port s.target_scheme subprotocols
      (prepare_outbound-IsConsistent ok)
apply-IsConsistent (opening io negotiated) ok = record {
  open_has_io = λ e. refl;
  io_in_phase = λ e. refl;
  in_use_present = λ e. refl;
  message_after_end = λ e. absurd (ground arith);
}
apply-IsConsistent (looking seen) ok = refresh_close_state-IsConsistent seen ok
apply-IsConsistent (closing_with code reason) {s} ok = mark_closed-IsConsistent s code reason
apply-IsConsistent (failing message) ok = record {
  open_has_io = λ e. absurd (ground arith);
  io_in_phase = λ e. absurd (ground arith);
  in_use_present = λ e. refl;
  message_after_end = λ e. refl;
}

default_connection-IsConsistent : IsConsistent default_connection
unfolding default_connection is_open_phase is_in_use is_some has_io
default_connection-IsConsistent = record {
  open_has_io = λ e. absurd (ground arith);
  io_in_phase = λ e. absurd (ground arith);
  in_use_present = λ e. absurd (ground arith);
  message_after_end = λ e. absurd (ground arith);
}

-- The connection of a request, whatever its headers are.
for_http_request-IsConsistent : (get : Text → Option Text) → IsConsistent (for_http_request get)
unfolding for_http_request default_connection is_open_phase is_some has_io
for_http_request-IsConsistent get = at (is_downstream_websocket_upgrade get)
  where
    at :
        (b : Bool)
        → IsConsistent (
            if not b then default_connection else record default_connection {
              phase = upgrade_observed;
              present = true;
              requested_subprotocols = parse_subprotocols_header get;
            })
    at false = default_connection-IsConsistent
    at true = record {
      open_has_io = λ e. absurd (ground arith);
      io_in_phase = λ e. absurd (ground arith);
      in_use_present = λ e. refl;
      message_after_end = λ e. absurd (ground arith);
    }

run_lem :
    (operations : List Operation)
    → {s : WebSocketConnectionState} → IsConsistent s
    → IsConsistent (run operations s)
unfolding run
run_lem [] ok = ok
run_lem (operation ∷ operations) ok = run_lem operations (apply-IsConsistent operation ok)

-- After any run of operations from the state of a request: an open phase has its io, an io is held only
-- while open, closing or closed, every phase but inactive and closed has the connection present, and a
-- failure message is there only in a phase that has ended.
pub run-IsConsistent :
    (get : Text → Option Text)
    → (operations : List Operation) → IsConsistent (run operations (for_http_request get))
run-IsConsistent get operations = run_lem operations (for_http_request-IsConsistent get)
