-- ===== src/Http/Http2/Session.antt =====
-- src/abi_impl/http2/upstream.rs: `Http2UpstreamSessionDagState`, the state of a session and its streams,
-- and the methods of `Http2UpstreamSession`, each of which works on it under its lock. The map of the
-- streams is an association list.
pub mod Streams
pub mod Run
pub mod Drains
pub mod Shut
pub mod Progress
pub mod Ids
use pd_edge.Common.{
  ℕ, ◌+◌, List, [], ◌∷◌, Option, none, some, Bool, true, false, not, ◌&&◌, ◌||◌, ◌==◌,
  if◌then◌else◌,
}
use Prim.Native.Nat.{min}
use pd_edge.Common.Bytes.{Text, text}
use pd_edge.Http.Http2.Model.{
  is_terminal, is_terminal_session, Http2ControlEventSource, transport, Http2GoawayState,
  Http2ResetState, Http2SessionGoal, Http2StreamGoal, Http2SessionFrontier, Http2StreamFrontier,
}

pub record Http2UpstreamStreamState : Type 0 where
  pub stream_id : ℕ
  pub exchange_handle : ℕ
  pub frontier : Http2StreamFrontier
  pub reset : Option Http2ResetState

abbrev pub Streams : Type 0
Streams = List (ℕ × Http2UpstreamStreamState)

pub record Http2UpstreamSessionDagState : Type 0 where
  pub frontier : Http2SessionFrontier
  pub goaway : Option Http2GoawayState
  pub streams : Streams
  pub next_local_stream_id : ℕ

abbrev pub largest_u64 : ℕ
largest_u64 = 18446744073709551615

-- `get_mut`, and what is done to the stream.
unfoldable pub update_stream :
    ℕ → (Http2UpstreamStreamState → Http2UpstreamStreamState) → Streams → Streams
update_stream id change [] = []
update_stream id change ((key, stream) ∷ streams) =
    let later = update_stream id change streams in
    if key == id then (key, change stream) ∷ streams else (key, stream) ∷ later

unfoldable pub remove_stream : ℕ → Streams → Streams
remove_stream id [] = []
remove_stream id ((key, stream) ∷ streams) =
    let later = remove_stream id streams in if key == id then later else (key, stream) ∷ later

unfoldable pub is_active : Http2UpstreamStreamState → Bool
is_active stream = not (is_terminal stream.frontier)

unfoldable pub any_active : Streams → Bool
any_active [] = false
any_active ((key, stream) ∷ streams) = is_active stream || any_active streams

unfoldable pub retain_active : Streams → Streams
retain_active [] = []
retain_active ((key, stream) ∷ streams) =
    let later = retain_active streams in if is_active stream then (key, stream) ∷ later else later

-- The steps of `advance_session_goal` to `Open`.
unfoldable pub attachable_if : Http2SessionFrontier → Http2SessionFrontier
attachable_if Http2SessionFrontier.candidate = Http2SessionFrontier.attachable
attachable_if f = f

unfoldable pub opened : Http2SessionFrontier → Http2SessionFrontier
opened Http2SessionFrontier.attachable = Http2SessionFrontier.open_frontier
opened Http2SessionFrontier.preface_exchanged = Http2SessionFrontier.open_frontier
opened Http2SessionFrontier.peer_settings_received = Http2SessionFrontier.open_frontier
opened f = f

unfoldable pub advanced_session : Http2SessionGoal → Http2SessionFrontier → Http2SessionFrontier
advanced_session Http2SessionGoal.attached f = attachable_if f
advanced_session Http2SessionGoal.open_goal f = opened (attachable_if f)
advanced_session Http2SessionGoal.draining f =
    if not (is_terminal_session f) then Http2SessionFrontier.draining else f

unfoldable pub advance_session_goal :
    Http2SessionGoal → Http2UpstreamSessionDagState → Http2UpstreamSessionDagState
advance_session_goal goal s = record s { frontier = advanced_session goal s.frontier }

unfoldable pub is_open : Http2SessionFrontier → Bool
is_open Http2SessionFrontier.open_frontier = true
is_open _ = false

unfoldable pub is_draining : Http2SessionFrontier → Bool
is_draining Http2SessionFrontier.draining = true
is_draining _ = false

unfoldable pub is_absent : Option Http2GoawayState → Bool
is_absent none = true
is_absent (some goaway) = false

unfoldable pub can_accept_new_streams : Http2UpstreamSessionDagState → Bool
can_accept_new_streams s = is_open s.frontier && is_absent s.goaway

unfoldable pub has_active_streams : Http2UpstreamSessionDagState → Bool
has_active_streams s = any_active s.streams

unfoldable pub prune_terminal_streams : Http2UpstreamSessionDagState → Http2UpstreamSessionDagState
prune_terminal_streams s =
    let pruned = retain_active s.streams in
    if is_draining s.frontier && not (any_active pruned)
    then record s { streams = pruned; frontier = Http2SessionFrontier.closed }
    else record s { streams = pruned }

-- The steps of `advance_stream_goal`, each an `if` on the frontier.
unfoldable pub attached_if : Http2StreamFrontier → Http2StreamFrontier
attached_if Http2StreamFrontier.reserved = Http2StreamFrontier.attached_to_exchange
attached_if f = f

unfoldable pub headers_sent_if : Http2StreamFrontier → Http2StreamFrontier
headers_sent_if Http2StreamFrontier.attached_to_exchange = Http2StreamFrontier.request_headers_sent
headers_sent_if f = f

unfoldable pub committed_if : Http2StreamFrontier → Http2StreamFrontier
committed_if Http2StreamFrontier.request_headers_sent = Http2StreamFrontier.request_committed
committed_if f = f

unfoldable pub head_ready_if : Http2StreamFrontier → Http2StreamFrontier
head_ready_if Http2StreamFrontier.request_headers_sent = Http2StreamFrontier.response_head_ready
head_ready_if Http2StreamFrontier.request_committed = Http2StreamFrontier.response_head_ready
head_ready_if Http2StreamFrontier.half_closed_local = Http2StreamFrontier.response_head_ready
head_ready_if f = f

unfoldable pub body_ready_if : Http2StreamFrontier → Http2StreamFrontier
body_ready_if Http2StreamFrontier.response_head_ready = Http2StreamFrontier.response_body_ready
body_ready_if f = f

unfoldable pub advanced : Http2StreamGoal → Http2StreamFrontier → Http2StreamFrontier
advanced Http2StreamGoal.attached f = attached_if f
advanced Http2StreamGoal.request_committed f = committed_if (headers_sent_if (attached_if f))
advanced Http2StreamGoal.response_head_ready f = head_ready_if (headers_sent_if (attached_if f))
advanced Http2StreamGoal.response_body_ready f =
    body_ready_if (head_ready_if (headers_sent_if (attached_if f)))
advanced Http2StreamGoal.closed f = Http2StreamFrontier.closed
advanced Http2StreamGoal.reset f = Http2StreamFrontier.reset

unfoldable pub advance_stream_goal :
    ℕ → Http2StreamGoal → Http2UpstreamSessionDagState → Http2UpstreamSessionDagState
advance_stream_goal id goal s = record s {
  streams =
      update_stream id (λ stream. record stream { frontier = advanced goal stream.frontier })
        s.streams;
}

-- `Ok` with the id of the stream, or one of the two refusals.
pub data Reservation : Type 0 where
  reserved_as : ℕ → Http2UpstreamSessionDagState → Reservation
  refused_after_goaway refused_not_open : Reservation

unfoldable pub new_stream : ℕ → ℕ → Http2UpstreamStreamState
new_stream id exchange_handle = record {
  stream_id = id;
  exchange_handle = exchange_handle;
  frontier = Http2StreamFrontier.reserved;
  reset = none;
}

unfoldable pub with_stream : ℕ → Http2UpstreamSessionDagState → Http2UpstreamSessionDagState
with_stream exchange_handle s =
    let id = s.next_local_stream_id in
    advance_stream_goal id Http2StreamGoal.attached (record s {
      streams = (id, new_stream id exchange_handle) ∷ remove_stream id s.streams;
      next_local_stream_id = min (id + 2) largest_u64;
    })

unfoldable pub reserve_stream : ℕ → Http2UpstreamSessionDagState → Reservation
reserve_stream exchange_handle s =
    if not (can_accept_new_streams s)
    then (if is_absent s.goaway then refused_not_open else refused_after_goaway)
    else reserved_as s.next_local_stream_id (with_stream exchange_handle (prune_terminal_streams s))

-- Whether or not there is a body, the stream ends up half closed.
unfoldable pub mark_stream_request_committed :
    ℕ → Bool → Http2UpstreamSessionDagState → Http2UpstreamSessionDagState
mark_stream_request_committed id body_present s =
    let t = advance_stream_goal id Http2StreamGoal.request_committed s in
    record t {
      streams =
          update_stream id
            (λ stream. record stream { frontier = Http2StreamFrontier.half_closed_local })
            t.streams;
    }

-- `mark_stream_reset` of the state, which the method of the session follows by a pruning.
unfoldable pub note_stream_reset :
    ℕ
    → Option Text
    → Http2ControlEventSource
    → Http2UpstreamSessionDagState
    → Http2UpstreamSessionDagState
note_stream_reset id reason source s = advance_stream_goal id Http2StreamGoal.reset (record s {
  streams =
      update_stream id
        (λ stream. record stream { reset = some (record { reason = reason; source = source }) })
        s.streams;
})

unfoldable pub closed_if_idle : Http2UpstreamSessionDagState → Http2UpstreamSessionDagState
closed_if_idle s =
    if not (has_active_streams s) then record s { frontier = Http2SessionFrontier.closed } else s

unfoldable pub mark_goaway :
    Option Text
    → Http2ControlEventSource
    → Http2UpstreamSessionDagState
    → Http2UpstreamSessionDagState
mark_goaway reason source s = closed_if_idle (
    advance_session_goal Http2SessionGoal.draining
      (record s { goaway = some (record { reason = reason; source = source }) }))

unfoldable pub reset_active : Option Text → Streams → Streams
reset_active reason [] = []
reset_active reason ((key, stream) ∷ streams) =
    let later = reset_active reason streams in
    if is_active stream
    then (
      key,
      record stream {
        reset = some (record { reason = reason; source = transport });
        frontier = Http2StreamFrontier.reset;
      },
    )
      ∷ later
    else (key, stream) ∷ later

unfoldable pub mark_connection_failed :
    Option Text → Http2UpstreamSessionDagState → Http2UpstreamSessionDagState
mark_connection_failed reason s = record s {
  frontier = Http2SessionFrontier.failed;
  streams = reset_active reason s.streams;
}

unfoldable pub mark_connection_closed : Http2UpstreamSessionDagState → Http2UpstreamSessionDagState
mark_connection_closed s =
    if not (has_active_streams s)
    then record s { frontier = Http2SessionFrontier.closed }
    else mark_connection_failed
        (some (text "http2 connection closed while streams remained active")) s

-- `Http2UpstreamSession::new`
unfoldable pub new_session : Http2UpstreamSessionDagState
new_session = advance_session_goal Http2SessionGoal.open_goal (record {
  frontier = Http2SessionFrontier.peer_settings_received;
  goaway = none;
  streams = [];
  next_local_stream_id = 1;
})

unfoldable pub mark_stream_response_head_ready :
    ℕ → Http2UpstreamSessionDagState → Http2UpstreamSessionDagState
mark_stream_response_head_ready id = advance_stream_goal id Http2StreamGoal.response_head_ready

unfoldable pub mark_stream_response_body_ready :
    ℕ → Http2UpstreamSessionDagState → Http2UpstreamSessionDagState
mark_stream_response_body_ready id = advance_stream_goal id Http2StreamGoal.response_body_ready

unfoldable pub mark_stream_closed : ℕ → Http2UpstreamSessionDagState → Http2UpstreamSessionDagState
mark_stream_closed id s = prune_terminal_streams (advance_stream_goal id Http2StreamGoal.closed s)

unfoldable pub mark_stream_reset :
    ℕ
    → Option Text
    → Http2ControlEventSource
    → Http2UpstreamSessionDagState
    → Http2UpstreamSessionDagState
mark_stream_reset id reason source s = prune_terminal_streams (note_stream_reset id reason source s)
