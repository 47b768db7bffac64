-- ===== src/Tests/Http2.antt =====
-- http2/upstream.rs: the theorems on sessions, at concrete calls.
use pd_edge.Common.{◌*◌}
use pd_edge.Common.{◌+◌}
use pd_edge.Common.{List, [], ◌∷◌, none, true, ◌≤◌, ◌≡◌, refl, arith, length}
use pd_edge.Http.Http2.Model.{is_terminal, remote_peer, Http2StreamGoal, Http2StreamFrontier}
use pd_edge.Http.Http2.Model.{is_terminal_session}
use pd_edge.Http.Http2.Model.{https, select_upstream_mode}
use pd_edge.Common.Bytes.{text}
use pd_edge.Http.Version.{auto}
use pd_edge.Http.Http3.{select_http3_mode}
use pd_edge.Http.Http3.Choice.{is_one_way, modes_one_way}
use pd_edge.Http.Http2.Session.{
  any_active, update_stream, advance_stream_goal, reset_active, can_accept_new_streams, is_open,
  advance_session_goal, advanced_session, opened, attachable_if, is_absent, with_stream,
  attached_if, committed_if, headers_sent_if, is_active, is_draining, new_stream,
  prune_terminal_streams, remove_stream, retain_active, advanced, new_session, has_active_streams,
  mark_connection_failed, mark_stream_request_committed, reserve_stream, largest_u64,
}
use pd_edge.Common.{◌⊎◌}
use pd_edge.Http.Http2.Session.{
  mark_stream_closed, mark_stream_reset, reserve_stream, refused_after_goaway, refused_not_open,
}
use pd_edge.Http.Http2.Session.Run.{
  Op, reserve, request_committed, head_ready, stream_closed, go_away, connection_failed, run,
}
use pd_edge.Http.Http2.Session.Drains.{IsDraining, ClosesAfter, run-IsDraining}
use pd_edge.Http.Http2.Session.Shut.{shut_refuses}
use pd_edge.Http.Http2.Session.Progress.{rank, reached, advanced_progress}
use pd_edge.Http.Http2.Session.Ids.{reserved_ids, every_other, reserved_ids-every_other}

-- Two streams, of which one ends before the peer goes away.
abbrev some_calls : List Op
some_calls =
    reserve 7
    ∷ reserve 8
    ∷ request_committed 1 true
    ∷ stream_closed 3
    ∷ go_away none remote_peer
    ∷ head_ready 1
    ∷ []

run-IsDraining_example :
    IsDraining (run some_calls new_session)
    × ClosesAfter (run some_calls new_session) (mark_stream_closed 1 (run some_calls new_session))
    × ClosesAfter
        (run some_calls new_session)
        (mark_stream_reset 1 none remote_peer (run some_calls new_session))
run-IsDraining_example = run-IsDraining some_calls 1 none remote_peer

shut_refuses_example :
    (reserve_stream 9 (run (go_away none remote_peer ∷ some_calls) new_session)
      ≡ refused_after_goaway)
    × ((reserve_stream 9 (run (connection_failed none ∷ some_calls) new_session) ≡ refused_not_open)
        ⊎ (reserve_stream 9 (run (connection_failed none ∷ some_calls) new_session)
            ≡ refused_after_goaway))
shut_refuses_example = shut_refuses none remote_peer new_session some_calls 9

advanced_progress_example :
    (advanced Http2StreamGoal.response_head_ready Http2StreamFrontier.half_closed_local
      ≡ reached Http2StreamGoal.response_head_ready Http2StreamFrontier.half_closed_local)
    × (rank Http2StreamFrontier.half_closed_local
        ≤ rank (advanced Http2StreamGoal.response_head_ready Http2StreamFrontier.half_closed_local))
    × (advanced Http2StreamGoal.response_head_ready
          (advanced Http2StreamGoal.response_head_ready Http2StreamFrontier.half_closed_local)
        ≡ advanced Http2StreamGoal.response_head_ready Http2StreamFrontier.half_closed_local)
advanced_progress_example =
    advanced_progress Http2StreamGoal.response_head_ready Http2StreamFrontier.half_closed_local

next_is_small : new_session.next_local_stream_id + 2 * 6 ≤ largest_u64
unfolding new_session advance_session_goal
next_is_small = omega arith

reserved_ids-every_other_example :
    reserved_ids some_calls new_session
    ≡ every_other new_session.next_local_stream_id (length (reserved_ids some_calls new_session))
reserved_ids-every_other_example = reserved_ids-every_other some_calls new_session next_is_small

-- A request that is committed after its connection failed is active again.
active_after_failure :
    has_active_streams
      (run (reserve 7 ∷ connection_failed none ∷ request_committed 1 true ∷ []) new_session)
    ≡ true
unfolding has_active_streams any_active mark_stream_request_committed update_stream
    advance_stream_goal mark_connection_failed reset_active reserve_stream can_accept_new_streams
    is_open new_session advance_session_goal advanced_session opened attachable_if is_absent
    with_stream is_terminal is_terminal_session advanced attached_if committed_if headers_sent_if
    is_active is_draining new_stream prune_terminal_streams remove_stream retain_active
active_after_failure = refl

modes_one_way_example :
    is_one_way
      (select_http3_mode https (text "h3" ∷ text "h2" ∷ []) auto)
      (select_upstream_mode https (text "h3" ∷ text "h2" ∷ []) auto)
    ≡ true
modes_one_way_example = modes_one_way https (text "h3" ∷ text "h2" ∷ []) auto
