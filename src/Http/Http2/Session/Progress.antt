-- ===== src/Http/Http2/Session/Progress.antt =====
-- http2/upstream.rs: where the goals of a stream lead its frontier.
use pd_edge.Common.{ℕ, ◌≤◌, Bool, true, false, ltb, leb, if◌then◌else◌, ◌≡◌, refl, leb→le}
use pd_edge.Http.Http2.Model.{Http2StreamGoal, Http2StreamFrontier}
use pd_edge.Http.Http2.Session.{
  attached_if, headers_sent_if, committed_if, head_ready_if, body_ready_if, advanced,
}
use pd_edge.Http.Http2.Session.Streams.{passes_all, passes_all-at}

-- How far a stream has come.
abbrev pub rank : Http2StreamFrontier → ℕ
rank Http2StreamFrontier.reserved = 0
rank Http2StreamFrontier.attached_to_exchange = 1
rank Http2StreamFrontier.request_headers_sent = 2
rank Http2StreamFrontier.request_body_open = 3
rank Http2StreamFrontier.request_committed = 4
rank Http2StreamFrontier.half_closed_local = 5
rank Http2StreamFrontier.response_head_ready = 6
rank Http2StreamFrontier.response_body_ready = 7
rank Http2StreamFrontier.half_closed_remote = 8
rank Http2StreamFrontier.closed = 9
rank Http2StreamFrontier.reset = 9

-- The frontier that a goal asks for.
abbrev pub target : Http2StreamGoal → Http2StreamFrontier
target Http2StreamGoal.attached = Http2StreamFrontier.attached_to_exchange
target Http2StreamGoal.request_committed = Http2StreamFrontier.request_committed
target Http2StreamGoal.response_head_ready = Http2StreamFrontier.response_head_ready
target Http2StreamGoal.response_body_ready = Http2StreamFrontier.response_body_ready
target Http2StreamGoal.closed = Http2StreamFrontier.closed
target Http2StreamGoal.reset = Http2StreamFrontier.reset

abbrev pub ends_stream : Http2StreamGoal → Bool
ends_stream Http2StreamGoal.closed = true
ends_stream Http2StreamGoal.reset = true
ends_stream _ = false

abbrev pub is_body_open : Http2StreamFrontier → Bool
is_body_open Http2StreamFrontier.request_body_open = true
is_body_open _ = false

-- A goal that ends the stream is reached from everywhere, closed from reset and reset from closed too.
-- Any other is reached from the frontiers before it, except from an open request body, and a frontier
-- that is at it or beyond stays.
abbrev pub reached : Http2StreamGoal → Http2StreamFrontier → Http2StreamFrontier
reached goal f =
    if ends_stream goal
    then target goal
    else if is_body_open f
    then f
    else if ltb (rank f) (rank (target goal))
    then target goal
    else f

-- The equation of a frontier and one of its goals, on every frontier.
AtEach : (Http2StreamFrontier → Type 0) → Type 0
AtEach P =
    P Http2StreamFrontier.reserved
    × P Http2StreamFrontier.attached_to_exchange
    × P Http2StreamFrontier.request_headers_sent
    × P Http2StreamFrontier.request_body_open
    × P Http2StreamFrontier.request_committed
    × P Http2StreamFrontier.response_head_ready
    × P Http2StreamFrontier.response_body_ready
    × P Http2StreamFrontier.half_closed_local
    × P Http2StreamFrontier.half_closed_remote
    × P Http2StreamFrontier.closed
    × P Http2StreamFrontier.reset

at_each : (P : Http2StreamFrontier → Type 0) → AtEach P → (f : Http2StreamFrontier) → P f
unfolding AtEach
at_each P h f = elim f as P [
  | Http2StreamFrontier.reserved ↦ h.0
  | Http2StreamFrontier.attached_to_exchange ↦ h.1
  | Http2StreamFrontier.request_headers_sent ↦ h.2
  | Http2StreamFrontier.request_body_open ↦ h.3
  | Http2StreamFrontier.request_committed ↦ h.4
  | Http2StreamFrontier.response_head_ready ↦ h.5
  | Http2StreamFrontier.response_body_ready ↦ h.6
  | Http2StreamFrontier.half_closed_local ↦ h.7
  | Http2StreamFrontier.half_closed_remote ↦ h.8
  | Http2StreamFrontier.closed ↦ h.9
  | Http2StreamFrontier.reset ↦ h.10
]

all_reached : (goal : Http2StreamGoal) → AtEach (λ f. advanced goal f ≡ reached goal f)
unfolding AtEach advanced attached_if headers_sent_if committed_if head_ready_if body_ready_if
all_reached Http2StreamGoal.attached =
    (refl, refl, refl, refl, refl, refl, refl, refl, refl, refl, refl)
all_reached Http2StreamGoal.request_committed =
    (refl, refl, refl, refl, refl, refl, refl, refl, refl, refl, refl)
all_reached Http2StreamGoal.response_head_ready =
    (refl, refl, refl, refl, refl, refl, refl, refl, refl, refl, refl)
all_reached Http2StreamGoal.response_body_ready =
    (refl, refl, refl, refl, refl, refl, refl, refl, refl, refl, refl)
all_reached Http2StreamGoal.closed =
    (refl, refl, refl, refl, refl, refl, refl, refl, refl, refl, refl)
all_reached Http2StreamGoal.reset =
    (refl, refl, refl, refl, refl, refl, refl, refl, refl, refl, refl)

all_again :
    (goal : Http2StreamGoal) → AtEach (λ f. advanced goal (advanced goal f) ≡ advanced goal f)
unfolding AtEach advanced attached_if headers_sent_if committed_if head_ready_if body_ready_if
all_again Http2StreamGoal.attached =
    (refl, refl, refl, refl, refl, refl, refl, refl, refl, refl, refl)
all_again Http2StreamGoal.request_committed =
    (refl, refl, refl, refl, refl, refl, refl, refl, refl, refl, refl)
all_again Http2StreamGoal.response_head_ready =
    (refl, refl, refl, refl, refl, refl, refl, refl, refl, refl, refl)
all_again Http2StreamGoal.response_body_ready =
    (refl, refl, refl, refl, refl, refl, refl, refl, refl, refl, refl)
all_again Http2StreamGoal.closed =
    (refl, refl, refl, refl, refl, refl, refl, refl, refl, refl, refl)
all_again Http2StreamGoal.reset = (refl, refl, refl, refl, refl, refl, refl, refl, refl, refl, refl)

all_forward :
    (goal : Http2StreamGoal) → passes_all (λ f. leb (rank f) (rank (advanced goal f))) ≡ true
unfolding advanced attached_if headers_sent_if committed_if head_ready_if body_ready_if
all_forward Http2StreamGoal.attached = refl
all_forward Http2StreamGoal.request_committed = refl
all_forward Http2StreamGoal.response_head_ready = refl
all_forward Http2StreamGoal.response_body_ready = refl
all_forward Http2StreamGoal.closed = refl
all_forward Http2StreamGoal.reset = refl

-- The steps of `advance_stream_goal` lead a stream to the frontier that the goal asks for from every
-- frontier before it, except that an open request body goes on only to closed or reset, and leave it
-- where it is at that frontier or beyond; closed and reset, which are last and equally far, each replace
-- the other when they are the goal. So no stream goes back in that order, and the same goal again changes
-- nothing.
pub advanced_progress :
    (goal : Http2StreamGoal) (f : Http2StreamFrontier)
    → (advanced goal f ≡ reached goal f)
      × (rank f ≤ rank (advanced goal f))
      × (advanced goal (advanced goal f) ≡ advanced goal f)
advanced_progress goal f = (
  at_each (λ f. advanced goal f ≡ reached goal f) (all_reached goal) f,
  leb→le _ _ (passes_all-at (λ f. leb (rank f) (rank (advanced goal f))) (all_forward goal) f),
  at_each (λ f. advanced goal (advanced goal f) ≡ advanced goal f) (all_again goal) f,
)
