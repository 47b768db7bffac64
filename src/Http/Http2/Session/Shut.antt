-- ===== src/Http/Http2/Session/Shut.antt =====
-- http2/upstream.rs: a session that drains, is closed or has failed takes no streams any more.
use pd_edge.Common.{
  ◌⊎◌, ℕ, List, [], ◌∷◌, Option, Bool, true, false, not, ◌&&◌, if◌then◌else◌, ◌≡◌, refl, ap, ◌∙◌,
  arith, Bool-cases, inl, inr,
}
use pd_edge.Common.Bytes.{Text}
use pd_edge.Http.Http2.Model.{
  is_terminal_session, Http2ControlEventSource, Http2SessionGoal, Http2StreamGoal,
  Http2SessionFrontier,
}
use pd_edge.Http.Http2.Session.{
  Http2UpstreamSessionDagState, Reservation, refused_not_open, refused_after_goaway, any_active,
  retain_active, advanced_session, advance_session_goal, is_open, is_draining, is_absent,
  can_accept_new_streams, has_active_streams, prune_terminal_streams, advance_stream_goal,
  reserve_stream, mark_stream_request_committed, note_stream_reset, closed_if_idle, mark_goaway,
  mark_connection_failed, mark_connection_closed, mark_stream_response_head_ready,
  mark_stream_response_body_ready, mark_stream_closed, mark_stream_reset,
}
use pd_edge.Http.Http2.Session.Run.{
  Op, reserve, request_committed, head_ready, body_ready, stream_closed, stream_reset, go_away,
  connection_closed, connection_failed, apply, run, after_reservation,
}

-- The frontiers from which a session does not come back.
unfoldable pub is_shut : Http2SessionFrontier → Bool
is_shut Http2SessionFrontier.draining = true
is_shut Http2SessionFrontier.closed = true
is_shut Http2SessionFrontier.failed = true
is_shut _ = false

shut_is_not_open : (f : Http2SessionFrontier) → is_shut f ≡ true → is_open f ≡ false
unfolding is_shut is_open
shut_is_not_open f = elim f as (λ f. is_shut f ≡ true → is_open f ≡ false) [
  | Http2SessionFrontier.candidate ↦ λ e. refl
  | Http2SessionFrontier.attachable ↦ λ e. refl
  | Http2SessionFrontier.preface_exchanged ↦ λ e. refl
  | Http2SessionFrontier.peer_settings_received ↦ λ e. refl
  | Http2SessionFrontier.open_frontier ↦ λ e. absurd (ground (arith, e))
  | Http2SessionFrontier.draining ↦ λ e. refl
  | Http2SessionFrontier.closed ↦ λ e. refl
  | Http2SessionFrontier.failed ↦ λ e. refl
]

advanced-is_shut :
    (f : Http2SessionFrontier) → is_shut (advanced_session Http2SessionGoal.draining f) ≡ true
unfolding advanced_session is_shut is_terminal_session
advanced-is_shut f =
    elim f as (λ f. is_shut (advanced_session Http2SessionGoal.draining f) ≡ true) [
      | Http2SessionFrontier.candidate ↦ refl
      | Http2SessionFrontier.attachable ↦ refl
      | Http2SessionFrontier.preface_exchanged ↦ refl
      | Http2SessionFrontier.peer_settings_received ↦ refl
      | Http2SessionFrontier.open_frontier ↦ refl
      | Http2SessionFrontier.draining ↦ refl
      | Http2SessionFrontier.closed ↦ refl
      | Http2SessionFrontier.failed ↦ refl
    ]

prune-is_shut :
    (s : Http2UpstreamSessionDagState)
    → is_shut s.frontier ≡ true
    → is_shut (prune_terminal_streams s).frontier ≡ true
unfolding prune_terminal_streams is_shut
prune-is_shut s h =
    elim (Bool-cases (is_draining s.frontier && not (any_active (retain_active s.streams)))) [
      | inl e ↦ rw e refl
      | inr e ↦ rw e h
    ]

abbrev refusal : Http2UpstreamSessionDagState → Reservation
refusal s = if is_absent s.goaway then refused_not_open else refused_after_goaway

refuses :
    (exchange_handle : ℕ) (s : Http2UpstreamSessionDagState)
    → is_shut s.frontier ≡ true
    → reserve_stream exchange_handle s ≡ refusal s
unfolding reserve_stream can_accept_new_streams
refuses exchange_handle s h =
    let o : is_open s.frontier ≡ false = shut_is_not_open s.frontier h in rw o refl

apply-is_shut :
    (op : Op) (s : Http2UpstreamSessionDagState)
    → is_shut s.frontier ≡ true
    → is_shut (apply op s).frontier ≡ true
unfolding mark_stream_request_committed mark_stream_response_head_ready
    mark_stream_response_body_ready mark_stream_closed mark_stream_reset mark_goaway
    mark_connection_failed mark_connection_closed advance_stream_goal note_stream_reset
    advance_session_goal closed_if_idle has_active_streams is_shut
apply-is_shut (reserve exchange_handle) s h =
    ap (λ r. is_shut (after_reservation r s).frontier) (refuses exchange_handle s h)
    ∙ refused (is_absent s.goaway)
  where
    refused :
        (b : Bool)
        → is_shut
            (after_reservation (if b then refused_not_open else refused_after_goaway) s).frontier
          ≡ true
    refused true = h
    refused false = h
apply-is_shut (request_committed id body_present) s h = h
apply-is_shut (head_ready id) s h = h
apply-is_shut (body_ready id) s h = h
apply-is_shut (stream_closed id) s h =
    prune-is_shut (advance_stream_goal id Http2StreamGoal.closed s) h
apply-is_shut (stream_reset id reason source) s h =
    prune-is_shut (note_stream_reset id reason source s) h
apply-is_shut (go_away reason source) s h = elim (Bool-cases (any_active s.streams)) [
  | inl e ↦ rw e (advanced-is_shut s.frontier)
  | inr e ↦ rw e refl
]
apply-is_shut connection_closed s h = elim (Bool-cases (any_active s.streams)) [
  | inl e ↦ rw e refl
  | inr e ↦ rw e refl
]
apply-is_shut (connection_failed reason) s h = refl

run-is_shut :
    (ops : List Op) (s : Http2UpstreamSessionDagState)
    → is_shut s.frontier ≡ true
    → is_shut (run ops s).frontier ≡ true
run-is_shut [] s h = h
run-is_shut (op ∷ ops) s h = run-is_shut ops (apply op s) (apply-is_shut op s h)

goaway-is_shut :
    (reason : Option Text) (source : Http2ControlEventSource) (s : Http2UpstreamSessionDagState)
    → is_shut (mark_goaway reason source s).frontier ≡ true
unfolding mark_goaway closed_if_idle has_active_streams advance_session_goal is_shut
goaway-is_shut reason source s = elim (Bool-cases (any_active s.streams)) [
  | inl e ↦ rw e (advanced-is_shut s.frontier)
  | inr e ↦ rw e refl
]

failed-is_shut :
    (reason : Option Text) (s : Http2UpstreamSessionDagState)
    → is_shut (mark_connection_failed reason s).frontier ≡ true
unfolding mark_connection_failed is_shut
failed-is_shut reason s = refl

prune-goaway : (s : Http2UpstreamSessionDagState) → (prune_terminal_streams s).goaway ≡ s.goaway
unfolding prune_terminal_streams
prune-goaway s =
    elim (Bool-cases (is_draining s.frontier && not (any_active (retain_active s.streams)))) [
      | inl e ↦ rw e refl
      | inr e ↦ rw e refl
    ]

-- A session that is shut and was told to go away remembers that.
apply-goaway :
    (op : Op) (s : Http2UpstreamSessionDagState)
    → is_shut s.frontier ≡ true
    → is_absent s.goaway ≡ false
    → is_absent (apply op s).goaway ≡ false
unfolding mark_stream_request_committed mark_stream_response_head_ready
    mark_stream_response_body_ready mark_stream_closed mark_stream_reset mark_goaway
    mark_connection_failed mark_connection_closed advance_stream_goal note_stream_reset
    advance_session_goal closed_if_idle has_active_streams is_absent
apply-goaway (reserve exchange_handle) s h away =
    ap (λ r. is_absent (after_reservation r s).goaway) (refuses exchange_handle s h)
    ∙ (rw (away, after_reservation) away)
apply-goaway (request_committed id body_present) s h away = away
apply-goaway (head_ready id) s h away = away
apply-goaway (body_ready id) s h away = away
apply-goaway (stream_closed id) s h away =
    ap is_absent (prune-goaway (advance_stream_goal id Http2StreamGoal.closed s)) ∙ away
apply-goaway (stream_reset id reason source) s h away =
    ap is_absent (prune-goaway (note_stream_reset id reason source s)) ∙ away
apply-goaway (go_away reason source) s h away = elim (Bool-cases (any_active s.streams)) [
  | inl e ↦ rw e refl
  | inr e ↦ rw e refl
]
apply-goaway connection_closed s h away = elim (Bool-cases (any_active s.streams)) [
  | inl e ↦ rw e away
  | inr e ↦ rw e away
]
apply-goaway (connection_failed reason) s h away = away

run-goaway :
    (ops : List Op) (s : Http2UpstreamSessionDagState)
    → is_shut s.frontier ≡ true
    → is_absent s.goaway ≡ false
    → is_absent (run ops s).goaway ≡ false
run-goaway [] s h away = away
run-goaway (op ∷ ops) s h away =
    run-goaway ops (apply op s) (apply-is_shut op s h) (apply-goaway op s h away)

goaway_noted :
    (reason : Option Text) (source : Http2ControlEventSource) (s : Http2UpstreamSessionDagState)
    → is_absent (mark_goaway reason source s).goaway ≡ false
unfolding mark_goaway closed_if_idle has_active_streams advance_session_goal is_absent
goaway_noted reason source s = elim (Bool-cases (any_active s.streams)) [
  | inl e ↦ rw e refl
  | inr e ↦ rw e refl
]

refused_or :
    (b : Bool) (r : Reservation)
    → r ≡ (if b then refused_not_open else refused_after_goaway)
    → (r ≡ refused_not_open) ⊎ (r ≡ refused_after_goaway)
refused_or true r e = inl e
refused_or false r e = inr e

-- Behind a GOAWAY, whatever else is called in whatever order, every reservation of a stream is refused
-- with the error of a session that was told to go away. Behind a failure of the connection, likewise,
-- every reservation is refused, with that error or the one of a session that is not open.
pub shut_refuses :
    (reason : Option Text) (source : Http2ControlEventSource) (s : Http2UpstreamSessionDagState)
    (ops : List Op) (exchange_handle : ℕ)
    → (reserve_stream exchange_handle (run (go_away reason source ∷ ops) s) ≡ refused_after_goaway)
      × ((reserve_stream exchange_handle (run (connection_failed reason ∷ ops) s)
            ≡ refused_not_open)
          ⊎ (reserve_stream exchange_handle (run (connection_failed reason ∷ ops) s)
              ≡ refused_after_goaway))
shut_refuses reason source s ops exchange_handle =
    let gone = mark_goaway reason source s in
    let failed = mark_connection_failed reason s in
    let away =
      run-goaway ops gone (goaway-is_shut reason source s) (goaway_noted reason source s) in
    (
      refuses exchange_handle (run ops gone) (run-is_shut ops gone (goaway-is_shut reason source s))
          ∙ ap (λ b. if b then refused_not_open else refused_after_goaway) away,
      refused_or _ _ (
          refuses exchange_handle (run ops failed)
            (run-is_shut ops failed (failed-is_shut reason s))),
    )
