-- ===== src/Http/Http2/Session/Drains.antt =====
-- http2/upstream.rs: a session that drains has an active stream, and one that was told to go away is not
-- open.
use pd_edge.Common.{
  ℕ, List, [], ◌∷◌, Option, some, Bool, true, false, not, ◌&&◌, if◌then◌else◌, ◌⊎◌, ◌≡◌, refl, ap,
  ◌∙◌, arith, Bool-cases, inl, inr,
}
use pd_edge.Common.Bytes.{Text}
use pd_edge.Http.Http2.Model.{
  Http2ControlEventSource, is_terminal, is_terminal_session, Http2GoawayState, Http2SessionGoal,
  Http2StreamGoal, Http2SessionFrontier,
}
use pd_edge.Http.Http2.Session.{
  refused_not_open, refused_after_goaway, Streams, Http2UpstreamSessionDagState, is_active,
  any_active, retain_active, advanced_session, advance_session_goal, is_open, is_draining,
  is_absent, can_accept_new_streams, has_active_streams, prune_terminal_streams,
  advance_stream_goal, with_stream, reserve_stream, mark_stream_request_committed,
  note_stream_reset, closed_if_idle, mark_goaway, mark_connection_failed, mark_connection_closed,
  new_session, mark_stream_response_head_ready, mark_stream_response_body_ready, mark_stream_closed,
  mark_stream_reset, opened, attachable_if,
}
use pd_edge.Http.Http2.Session.Streams.{
  GoesOn, response_head_ready-GoesOn, response_body_ready-GoesOn, request_committed-GoesOn,
  any_active-update,
}
use pd_edge.Http.Http2.Session.Run.{
  Op, reserve, request_committed, head_ready, body_ready, stream_closed, stream_reset, go_away,
  connection_closed, connection_failed, apply, run, after_reservation,
}

abbrev pub Drains : Http2SessionFrontier → Option Http2GoawayState → Streams → Type 0
Drains frontier goaway streams =
    ((is_absent goaway ≡ true) ⊎ (is_open frontier ≡ false))
    × ((is_draining frontier ≡ false) ⊎ (any_active streams ≡ true))

-- A session that was told to go away is not open, and one that drains has an active stream.
abbrev pub IsDraining : Http2UpstreamSessionDagState → Type 0
IsDraining s = Drains s.frontier s.goaway s.streams

kept_active :
    (id : ℕ) (goal : Http2StreamGoal) (s : Http2UpstreamSessionDagState)
    → GoesOn goal
    → IsDraining s
    → IsDraining (advance_stream_goal id goal s)
unfolding advance_stream_goal is_active
kept_active id goal s keeps (away, inl d) = (away, inl d)
kept_active id goal s keeps (away, inr d) = (
  away,
  inr (
      any_active-update id _ s.streams
        (λ stream a.
          let f : is_terminal stream.frontier ≡ false = ground (arith, a) in
          let g = keeps stream.frontier f in ground (arith, g))
        d),
)

prune-Drains :
    (s : Http2UpstreamSessionDagState)
    → (is_absent s.goaway ≡ true) ⊎ (is_open s.frontier ≡ false)
    → IsDraining (prune_terminal_streams s)
unfolding prune_terminal_streams is_open is_draining
prune-Drains s away =
    elim (Bool-cases (is_draining s.frontier && not (any_active (retain_active s.streams)))) [
      | inl e ↦ rw e (inr refl, inl refl)
      | inr e ↦
          rw e (away, undrained (is_draining s.frontier) (any_active (retain_active s.streams)) e)
    ]
  where
    undrained : (d a : Bool) → (d && not a) ≡ false → (d ≡ false) ⊎ (a ≡ true)
    undrained false a e = inl refl
    undrained true true e = inr refl
    undrained true false e = absurd (ground (arith, e))

closed_if_idle-Drains :
    (s : Http2UpstreamSessionDagState) → is_open s.frontier ≡ false → IsDraining (closed_if_idle s)
unfolding closed_if_idle has_active_streams is_open is_draining
closed_if_idle-Drains s h = elim (Bool-cases (any_active s.streams)) [
  | inl e ↦ rw e (inr h, inr e)
  | inr e ↦ rw e (inr refl, inl refl)
]

draining_is_not_open :
    (f : Http2SessionFrontier) → is_open (advanced_session Http2SessionGoal.draining f) ≡ false
unfolding advanced_session is_open is_terminal_session
draining_is_not_open f =
    elim f as (λ f. is_open (advanced_session Http2SessionGoal.draining f) ≡ false) [
      | Http2SessionFrontier.candidate ↦ refl
      | Http2SessionFrontier.attachable ↦ refl
      | Http2SessionFrontier.preface_exchanged ↦ refl
      | Http2SessionFrontier.peer_settings_received ↦ refl
      | Http2SessionFrontier.open_frontier ↦ refl
      | Http2SessionFrontier.draining ↦ refl
      | Http2SessionFrontier.closed ↦ refl
      | Http2SessionFrontier.failed ↦ refl
    ]

open_is_not_draining : (f : Http2SessionFrontier) → is_open f ≡ true → is_draining f ≡ false
unfolding is_open is_draining
open_is_not_draining f = elim f as (λ f. is_open f ≡ true → is_draining f ≡ false) [
  | Http2SessionFrontier.candidate ↦ λ e. refl
  | Http2SessionFrontier.attachable ↦ λ e. refl
  | Http2SessionFrontier.preface_exchanged ↦ λ e. refl
  | Http2SessionFrontier.peer_settings_received ↦ λ e. refl
  | Http2SessionFrontier.open_frontier ↦ λ e. refl
  | Http2SessionFrontier.draining ↦ λ e. absurd (ground (arith, e))
  | Http2SessionFrontier.closed ↦ λ e. refl
  | Http2SessionFrontier.failed ↦ λ e. refl
]

-- Pruning an open session leaves it open.
prune-open :
    (s : Http2UpstreamSessionDagState)
    → is_draining s.frontier ≡ false
    → (prune_terminal_streams s).frontier ≡ s.frontier
unfolding prune_terminal_streams
prune-open s e = rw e refl

prune-goaway : (s : Http2UpstreamSessionDagState) → (prune_terminal_streams s).goaway ≡ s.goaway
unfolding prune_terminal_streams
prune-goaway s =
    elim (Bool-cases (is_draining s.frontier && not (any_active (retain_active s.streams)))) [
      | inl e ↦ rw e refl
      | inr e ↦ rw e refl
    ]

reserve-IsDraining :
    (exchange_handle : ℕ) (s : Http2UpstreamSessionDagState)
    → IsDraining s
    → IsDraining (apply (reserve exchange_handle) s)
unfolding reserve_stream can_accept_new_streams with_stream advance_stream_goal
reserve-IsDraining exchange_handle s h =
    elim (Bool-cases (is_open s.frontier && is_absent s.goaway)) [
      | inl e ↦
          let o : is_open s.frontier ≡ true = ground (arith, e) in
          let a : is_absent s.goaway ≡ true = ground (arith, e) in
          let d = open_is_not_draining s.frontier o in
          rw e (inl (ap is_absent (prune-goaway s) ∙ a), inl (ap is_draining (prune-open s d) ∙ d))
      | inr e ↦ rw e (refused (is_absent s.goaway))
    ]
  where
    refused :
        (b : Bool)
        → IsDraining (after_reservation (if b then refused_not_open else refused_after_goaway) s)
    refused true = h
    refused false = h

commit-IsDraining :
    (id : ℕ) (body_present : Bool) (s : Http2UpstreamSessionDagState)
    → IsDraining s
    → IsDraining (mark_stream_request_committed id body_present s)
unfolding mark_stream_request_committed is_active is_terminal
commit-IsDraining id body_present s h =
    half_closed (kept_active id Http2StreamGoal.request_committed s request_committed-GoesOn h)
  where
    half_closed :
        IsDraining (advance_stream_goal id Http2StreamGoal.request_committed s)
        → IsDraining (mark_stream_request_committed id body_present s)
    half_closed (away, inl d) = (away, inl d)
    half_closed (away, inr d) = (away, inr (any_active-update id _ _ (λ stream a. refl) d))

connection_closed-IsDraining :
    (s : Http2UpstreamSessionDagState) → IsDraining (mark_connection_closed s)
unfolding mark_connection_closed mark_connection_failed has_active_streams is_open is_draining
connection_closed-IsDraining s = elim (Bool-cases (any_active s.streams)) [
  | inl e ↦ rw e (inr refl, inl refl)
  | inr e ↦ rw e (inr refl, inl refl)
]

apply-IsDraining :
    (op : Op) (s : Http2UpstreamSessionDagState) → IsDraining s → IsDraining (apply op s)
unfolding mark_stream_response_head_ready mark_stream_response_body_ready mark_stream_closed
    mark_stream_reset mark_goaway mark_connection_failed advance_session_goal advance_stream_goal
    note_stream_reset is_open is_draining
apply-IsDraining (reserve exchange_handle) s h = reserve-IsDraining exchange_handle s h
apply-IsDraining (request_committed id body_present) s h = commit-IsDraining id body_present s h
apply-IsDraining (head_ready id) s h = kept_active id _ s response_head_ready-GoesOn h
apply-IsDraining (body_ready id) s h = kept_active id _ s response_body_ready-GoesOn h
apply-IsDraining (stream_closed id) s h =
    prune-Drains (advance_stream_goal id Http2StreamGoal.closed s) h.0
apply-IsDraining (stream_reset id reason source) s h =
    prune-Drains (note_stream_reset id reason source s) h.0
apply-IsDraining (go_away reason source) s h =
    closed_if_idle-Drains
      (advance_session_goal Http2SessionGoal.draining
        (record s { goaway = some (record { reason = reason; source = source }) }))
      (draining_is_not_open s.frontier)
apply-IsDraining connection_closed s h = connection_closed-IsDraining s
apply-IsDraining (connection_failed reason) s h = (inr refl, inl refl)

-- A session that drains and has no active stream left is closed.
abbrev pub ClosesAfter : Http2UpstreamSessionDagState → Http2UpstreamSessionDagState → Type 0
ClosesAfter before after =
    (is_draining before.frontier ≡ false)
    ⊎ ((any_active after.streams ≡ true) ⊎ (after.frontier ≡ Http2SessionFrontier.closed))

prune-ClosesAfter : (s : Http2UpstreamSessionDagState) → ClosesAfter s (prune_terminal_streams s)
unfolding prune_terminal_streams
prune-ClosesAfter s =
    elim (Bool-cases (is_draining s.frontier && not (any_active (retain_active s.streams)))) [
      | inl e ↦ rw e (inr (inr refl))
      | inr e ↦ rw e (going_on (is_draining s.frontier) (any_active (retain_active s.streams)) e)
    ]
  where
    going_on :
        (d a : Bool)
        → (d && not a) ≡ false
        → (d ≡ false) ⊎ ((a ≡ true) ⊎ (s.frontier ≡ Http2SessionFrontier.closed))
    going_on false a e = inl refl
    going_on true true e = inr (inl refl)
    going_on true false e = absurd (ground (arith, e))

-- Whatever is called on a session that was just opened, in whatever order: once it was told to go away
-- it is not open, and while it drains it has an active stream; and if a stream is then closed or reset,
-- and the session was draining and has no active stream left, it is closed.
pub run-IsDraining :
    (ops : List Op) (id : ℕ) (reason : Option Text) (source : Http2ControlEventSource)
    → IsDraining (run ops new_session)
      × ClosesAfter (run ops new_session) (mark_stream_closed id (run ops new_session))
      × ClosesAfter (run ops new_session) (mark_stream_reset id reason source (run ops new_session))
unfolding new_session advance_session_goal advanced_session opened attachable_if is_draining
    is_absent mark_stream_closed mark_stream_reset advance_stream_goal note_stream_reset
run-IsDraining ops id reason source = (
  runs ops new_session (inl refl, inl refl),
  prune-ClosesAfter (advance_stream_goal id Http2StreamGoal.closed (run ops new_session)),
  prune-ClosesAfter (note_stream_reset id reason source (run ops new_session)),
)
  where
    runs :
        (ops : List Op) (s : Http2UpstreamSessionDagState) → IsDraining s → IsDraining (run ops s)
    runs [] s h = h
    runs (op ∷ ops) s h = runs ops (apply op s) (apply-IsDraining op s h)
