-- ===== src/Transport/Sockets/Udp.antt =====
-- state.rs: `UdpSocketState`, the addresses and the phase of a UDP socket.
use pd_edge.Common.{ap, ◌≡◌, ◌≢◌, refl, List, [], ◌∷◌, none, true, arith, ℕ}
use pd_edge.Common.Bytes.{Text}
use pd_edge.Transport.Sockets
use pd_edge.Transport.Sockets.{
  SocketAddressState, SocketTargetState, default_addresses, optional_value, mark_present,
  clear_failure, or_default, target_authority, peer_address_text,
}

pub data UdpSocketPhase : Type 0 where
  inactive bound configured connected closed failed : UdpSocketPhase

pub record UdpSocketState : Type 0 where
  pub core : SocketAddressState
  pub phase : UdpSocketPhase

abbrev pub default_socket : UdpSocketState
default_socket = record { core = default_addresses; phase = inactive }

abbrev bound_if_inactive : UdpSocketPhase → UdpSocketPhase
bound_if_inactive inactive = bound
bound_if_inactive p = p

unfoldable pub set_bind_address : Text → UdpSocketState → UdpSocketState
set_bind_address address s = record s {
  core = Sockets.set_bind_address address s.core;
  phase = bound_if_inactive s.phase;
}

unfoldable pub set_target : Text → Text → ℕ → UdpSocketState → UdpSocketState
set_target authority host port s = record s {
  core = Sockets.set_target authority host port s.core;
  phase = configured;
}

unfoldable pub mark_connected : Text → Text → UdpSocketState → UdpSocketState
mark_connected local_address peer_address s = record s {
  core = Sockets.mark_connected local_address peer_address s.core;
  phase = connected;
}

unfoldable pub mark_closed : UdpSocketState → UdpSocketState
mark_closed s = record s { phase = closed }

unfoldable pub mark_failed : Text → UdpSocketState → UdpSocketState
mark_failed message s = record s { core = Sockets.mark_failed message s.core; phase = failed }

unfoldable pub peer_address : UdpSocketState → Text
peer_address s = peer_address_text s.core

-- Each method that changes a socket.
pub data UdpStep : Type 0 where
  marks_closed : UdpStep
  sets_bind_address : Text → UdpStep
  sets_target : Text → Text → ℕ → UdpStep
  marks_connected : Text → Text → UdpStep
  marks_failed : Text → UdpStep

unfoldable pub step : UdpStep → UdpSocketState → UdpSocketState
step marks_closed s = mark_closed s
step (sets_bind_address a) s = set_bind_address a s
step (sets_target a h p) s = set_target a h p s
step (marks_connected l p) s = mark_connected l p s
step (marks_failed m) s = mark_failed m s

unfoldable pub run : List UdpStep → UdpSocketState → UdpSocketState
run [] s = s
run (t ∷ ts) s = run ts (step t s)

-- What the addresses of a socket hold in each phase.
abbrev pub UdpFits : UdpSocketPhase → SocketAddressState → Type 0
UdpFits inactive c = c ≡ default_addresses
UdpFits bound c =
    (c.present ≡ true) × (c.failure_message ≡ none) × (c.target ≡ none) × (c.peer_address ≡ none)
UdpFits configured c =
    (c.present ≡ true) × (c.failure_message ≡ none) × (c.target ≢ none) × (c.peer_address ≡ none)
UdpFits connected c = (c.present ≡ true) × (c.failure_message ≡ none) × (c.peer_address ≢ none)
UdpFits closed c = Unit
UdpFits failed c = c.present ≡ true

all_steps : Unit {0}
unfolding step set_bind_address set_target mark_connected mark_closed mark_failed
    Sockets.set_bind_address Sockets.set_target Sockets.mark_connected Sockets.mark_failed
    mark_present clear_failure optional_value
all_steps = tt

bind-UdpFits :
    (p : UdpSocketPhase) (a : Text) (c : SocketAddressState)
    → UdpFits p c
    → UdpFits (bound_if_inactive p) (Sockets.set_bind_address a c)
unfolding all_steps
bind-UdpFits inactive a c h = (refl, refl, ap (λ x. x.target) h, ap (λ x. x.peer_address) h)
bind-UdpFits bound a c (_, _, t, p) = (refl, refl, t, p)
bind-UdpFits configured a c (_, _, t, p) = (refl, refl, t, p)
bind-UdpFits connected a c (_, _, p) = (refl, refl, p)
bind-UdpFits closed a c h = tt
bind-UdpFits failed a c h = refl

step-UdpFits :
    (t : UdpStep) (s : UdpSocketState)
    → UdpFits s.phase s.core
    → UdpFits (step t s).phase (step t s).core
unfolding all_steps
step-UdpFits marks_closed s h = tt
step-UdpFits (sets_bind_address a) s h = bind-UdpFits s.phase a s.core h
step-UdpFits (sets_target a n p) s h = (refl, refl, λ e. absurd (ground arith), refl)
step-UdpFits (marks_connected l p) s h = (refl, refl, λ e. absurd (ground arith))
step-UdpFits (marks_failed m) s h = refl

run-step-UdpFits :
    (ts : List UdpStep) (s : UdpSocketState)
    → UdpFits s.phase s.core
    → UdpFits (run ts s).phase (run ts s).core
unfolding run
run-step-UdpFits [] s h = h
run-step-UdpFits (t ∷ ts) s h = run-step-UdpFits ts (step t s) (step-UdpFits t s h)

-- Whatever methods are called on a fresh UDP socket, in any order: while it is inactive its addresses
-- are the default ones, so it is not present; in every other phase but closed it is present; while
-- it is bound it has no target and no peer, while it is configured a target and no peer, while it
-- is connected a peer; and it has a failure message at most while it is closed or failed.
run-UdpFits :
    (ts : List UdpStep) → UdpFits (run ts default_socket).phase (run ts default_socket).core
run-UdpFits ts = run-step-UdpFits ts default_socket refl
