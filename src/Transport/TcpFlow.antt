-- ===== src/Transport/TcpFlow.antt =====
-- state.rs: `TcpFlowState`, the lifecycle of a TCP flow of the transport DAG.
use pd_edge.Common.{
  All, ◌≡◌, ◌≢◌, ◌↔◌, refl, List, [], ◌∷◌, Option, none, some, Bool, true, false, ◌||◌, arith,
}
use pd_edge.Common.Bytes.{Text}

pub data TcpFlowPhase : Type 0 where
  inactive configured connected closed failed : TcpFlowPhase

pub record TcpFlowState : Type 0 where
  pub phase : TcpFlowPhase
  pub rx_observed : Bool
  pub tx_observed : Bool
  pub failure_message : Option Text

abbrev pub default_flow : TcpFlowState
default_flow = record {
  phase = inactive;
  rx_observed = false;
  tx_observed = false;
  failure_message = none;
}

unfoldable pub downstream_ready : TcpFlowState
downstream_ready = record {
  phase = connected;
  rx_observed = false;
  tx_observed = false;
  failure_message = none;
}

unfoldable pub configure : TcpFlowState → TcpFlowState
configure f = record f { phase = configured; failure_message = none }

unfoldable pub note_read : TcpFlowState → TcpFlowState
note_read f = record f { rx_observed = true }

unfoldable pub note_write : TcpFlowState → TcpFlowState
note_write f = record f { tx_observed = true }

unfoldable pub observed_io : TcpFlowState → Bool
observed_io f = f.rx_observed || f.tx_observed

unfoldable pub mark_connected : TcpFlowState → TcpFlowState
mark_connected f = record f { phase = connected; failure_message = none }

abbrev closed_unless_failed : TcpFlowPhase → TcpFlowPhase
closed_unless_failed failed = failed
closed_unless_failed _ = closed

unfoldable pub mark_closed : TcpFlowState → TcpFlowState
mark_closed f = record f { phase = closed_unless_failed f.phase }

unfoldable pub mark_failed : Text → TcpFlowState → TcpFlowState
mark_failed message f = record f { phase = failed; failure_message = some message }

-- Each method that changes a flow.
pub data FlowStep : Type 0 where
  configures notes_read notes_write marks_connected marks_closed : FlowStep
  marks_failed : Text → FlowStep

pub step : FlowStep → TcpFlowState → TcpFlowState
step configures f = configure f
step notes_read f = note_read f
step notes_write f = note_write f
step marks_connected f = mark_connected f
step marks_closed f = mark_closed f
step (marks_failed message) f = mark_failed message f

pub run : List FlowStep → TcpFlowState → TcpFlowState
run [] f = f
run (s ∷ ss) f = run ss (step s f)

all_steps : Unit {0}
unfolding step configure note_read note_write observed_io mark_connected mark_closed mark_failed
all_steps = tt

-- A flow has a failure message exactly while it is failed.
abbrev pub HasMessageIfFailed : TcpFlowState → Type 0
HasMessageIfFailed f = (f.phase ≡ failed) ↔ (f.failure_message ≢ none)

closed_unless_failed-eq-failed :
    (p : TcpFlowPhase) → (closed_unless_failed p ≡ failed) ↔ (p ≡ failed)
closed_unless_failed-eq-failed inactive = (λ e. absurd (ground arith), λ e. absurd (ground arith))
closed_unless_failed-eq-failed configured = (λ e. absurd (ground arith), λ e. absurd (ground arith))
closed_unless_failed-eq-failed connected = (λ e. absurd (ground arith), λ e. absurd (ground arith))
closed_unless_failed-eq-failed closed = (λ e. absurd (ground arith), λ e. absurd (ground arith))
closed_unless_failed-eq-failed failed = (λ e. refl, λ e. refl)

step-HasMessageIfFailed :
    (s : FlowStep) (f : TcpFlowState) → HasMessageIfFailed f → HasMessageIfFailed (step s f)
unfolding all_steps
step-HasMessageIfFailed configures f h = (λ e. absurd (ground arith), λ n. absurd (n refl))
step-HasMessageIfFailed notes_read f h = h
step-HasMessageIfFailed notes_write f h = h
step-HasMessageIfFailed marks_connected f h = (λ e. absurd (ground arith), λ n. absurd (n refl))
step-HasMessageIfFailed marks_closed f h = (
  λ e. h.0 ((closed_unless_failed-eq-failed f.phase).0 e),
  λ n. (closed_unless_failed-eq-failed f.phase).1 (h.1 n),
)
step-HasMessageIfFailed (marks_failed message) f h = (λ e p. cc, λ n. refl)

run-HasMessageIfFailed :
    (ss : List FlowStep) (f : TcpFlowState) → HasMessageIfFailed f → HasMessageIfFailed (run ss f)
unfolding run
run-HasMessageIfFailed [] f h = h
run-HasMessageIfFailed (s ∷ ss) f h =
    run-HasMessageIfFailed ss (step s f) (step-HasMessageIfFailed s f h)

-- A flow that has not been configured or connected again since it failed.
pub data IsQuiet : FlowStep → Type 0 where
  reads : IsQuiet notes_read
  writes : IsQuiet notes_write
  closes : IsQuiet marks_closed

run-quiet :
    (ss : List FlowStep) (f : TcpFlowState)
    → All IsQuiet ss
    → f.phase ≡ failed
    → ((run ss f).phase ≡ failed) × ((run ss f).failure_message ≡ f.failure_message)
unfolding all_steps run
run-quiet [] f q e = (e, refl)
run-quiet (notes_read ∷ ss) f (q, qs) e = run-quiet ss (note_read f) qs e
run-quiet (notes_write ∷ ss) f (q, qs) e = run-quiet ss (note_write f) qs e
run-quiet (marks_closed ∷ ss) f (q, qs) e =
    run-quiet ss (mark_closed f) qs ((closed_unless_failed-eq-failed f.phase).1 e)
run-quiet (configures ∷ ss) f (q, qs) e = elim q [ ]
run-quiet (marks_connected ∷ ss) f (q, qs) e = elim q [ ]
run-quiet (marks_failed _ ∷ ss) f (q, qs) e = elim q [ ]

-- Whatever methods are called on a fresh flow, in any order, it has a failure message exactly while
-- its phase is failed; and a failure that is recorded then survives every read, write and close
-- that follows it, its message included.
pub failure_is_kept :
    (ss : List FlowStep) (message : Text) (after : List FlowStep)
    → All IsQuiet after
    → HasMessageIfFailed (run ss default_flow)
      × ((run after (mark_failed message (run ss default_flow))).phase ≡ failed)
      × ((run after (mark_failed message (run ss default_flow))).failure_message ≡ some message)
unfolding all_steps
failure_is_kept ss message after q =
    let f = run ss default_flow in
    let kept = run-quiet after (mark_failed message f) q refl in
    (
      run-HasMessageIfFailed ss default_flow (λ e. absurd (ground arith), λ n. absurd (n refl)),
      kept.0,
      kept.1,
    )
