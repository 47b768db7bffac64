-- ===== src/Http/Http2/Session/Run.antt =====
-- http2/upstream.rs: runs of the methods of `Http2UpstreamSession`, in any order.
use pd_edge.Common.{ℕ, List, [], ◌∷◌, Option, Bool}
use pd_edge.Common.Bytes.{Text}
use pd_edge.Http.Http2.Model.{Http2ControlEventSource}
use pd_edge.Http.Http2.Session.{
  Http2UpstreamSessionDagState, Reservation, reserved_as, refused_after_goaway, refused_not_open,
  reserve_stream, mark_stream_request_committed, mark_stream_response_head_ready,
  mark_stream_response_body_ready, mark_stream_closed, mark_stream_reset, mark_goaway,
  mark_connection_closed, mark_connection_failed,
}

pub data Op : Type 0 where
  reserve : ℕ → Op
  request_committed : ℕ → Bool → Op
  head_ready body_ready stream_closed : ℕ → Op
  stream_reset : ℕ → Option Text → Http2ControlEventSource → Op
  go_away : Option Text → Http2ControlEventSource → Op
  connection_closed : Op
  connection_failed : Option Text → Op

-- The session behind a reservation, refused or not.
abbrev pub after_reservation :
    Reservation → Http2UpstreamSessionDagState → Http2UpstreamSessionDagState
after_reservation (reserved_as id t) s = t
after_reservation refused_after_goaway s = s
after_reservation refused_not_open s = s

abbrev pub apply : Op → Http2UpstreamSessionDagState → Http2UpstreamSessionDagState
apply (reserve exchange_handle) s = after_reservation (reserve_stream exchange_handle s) s
apply (request_committed id body_present) s = mark_stream_request_committed id body_present s
apply (head_ready id) s = mark_stream_response_head_ready id s
apply (body_ready id) s = mark_stream_response_body_ready id s
apply (stream_closed id) s = mark_stream_closed id s
apply (stream_reset id reason source) s = mark_stream_reset id reason source s
apply (go_away reason source) s = mark_goaway reason source s
apply connection_closed s = mark_connection_closed s
apply (connection_failed reason) s = mark_connection_failed reason s

abbrev pub run : List Op → Http2UpstreamSessionDagState → Http2UpstreamSessionDagState
run [] s = s
run (op ∷ ops) s = run ops (apply op s)
