-- ===== src/Transport/Sockets/Tcp.antt =====
-- state.rs: `TcpSocketState`, the addresses and the phase of a TCP socket.
use pd_edge.Common.{ap, ◌≡◌, ◌≢◌, refl, List, [], ◌∷◌, none, Bool, true, false, arith, ℕ}
use pd_edge.Common.Bytes.{Text}
use pd_edge.Transport.Sockets
use pd_edge.Transport.Sockets.{
  SocketAddressState, SocketTargetState, default_addresses, optional_value, mark_present,
  clear_failure, or_default, target_authority, peer_address_text,
}

pub data TcpSocketPhase : Type 0 where
  inactive bound configured connected upgraded_tls attached_mqtt attached_http attached_proxy closed
        failed :
      TcpSocketPhase

pub record TcpSocketState : Type 0 where
  pub core : SocketAddressState
  pub phase : TcpSocketPhase
  pub read_eof : Bool

abbrev pub default_socket : TcpSocketState
default_socket = record { core = default_addresses; phase = inactive; read_eof = false }

abbrev bound_if_inactive : TcpSocketPhase → TcpSocketPhase
bound_if_inactive inactive = bound
bound_if_inactive p = p

unfoldable pub set_bind_address : Text → TcpSocketState → TcpSocketState
set_bind_address address s = record s {
  core = Sockets.set_bind_address address s.core;
  phase = bound_if_inactive s.phase;
  read_eof = false;
}

unfoldable pub set_target : Text → Text → ℕ → TcpSocketState → TcpSocketState
set_target authority host port s = record s {
  core = Sockets.set_target authority host port s.core;
  phase = configured;
  read_eof = false;
}

unfoldable pub mark_connected : Text → Text → TcpSocketState → TcpSocketState
mark_connected local_address peer_address s = record s {
  core = Sockets.mark_connected local_address peer_address s.core;
  phase = connected;
  read_eof = false;
}

unfoldable pub mark_upgraded_tls : TcpSocketState → TcpSocketState
mark_upgraded_tls s = record s {
  core = clear_failure (mark_present s.core);
  phase = upgraded_tls;
  read_eof = false;
}

unfoldable pub mark_mqtt_attached : TcpSocketState → TcpSocketState
mark_mqtt_attached s = record s {
  core = clear_failure (mark_present s.core);
  phase = attached_mqtt;
  read_eof = false;
}

unfoldable pub mark_http_attached : TcpSocketState → TcpSocketState
mark_http_attached s = record s {
  core = clear_failure (mark_present s.core);
  phase = attached_http;
  read_eof = false;
}

unfoldable pub mark_proxy_attached : TcpSocketState → TcpSocketState
mark_proxy_attached s = record s {
  core = clear_failure (mark_present s.core);
  phase = attached_proxy;
  read_eof = false;
}

unfoldable pub mark_read_eof : TcpSocketState → TcpSocketState
mark_read_eof s = record s { read_eof = true }

unfoldable pub clear_read_eof : TcpSocketState → TcpSocketState
clear_read_eof s = record s { read_eof = false }

unfoldable pub mark_closed : TcpSocketState → TcpSocketState
mark_closed s = record s { phase = closed }

unfoldable pub mark_failed : Text → TcpSocketState → TcpSocketState
mark_failed message s = record s { core = Sockets.mark_failed message s.core; phase = failed }

unfoldable pub peer_address : TcpSocketState → Text
peer_address s = peer_address_text s.core

-- Each method that changes a socket.
pub data TcpStep : Type 0 where
  marks_upgraded_tls marks_mqtt_attached marks_http_attached marks_proxy_attached marks_read_eof
        clears_read_eof marks_closed :
      TcpStep
  sets_bind_address : Text → TcpStep
  sets_target : Text → Text → ℕ → TcpStep
  marks_connected : Text → Text → TcpStep
  marks_failed : Text → TcpStep

unfoldable pub step : TcpStep → TcpSocketState → TcpSocketState
step marks_upgraded_tls s = mark_upgraded_tls s
step marks_mqtt_attached s = mark_mqtt_attached s
step marks_http_attached s = mark_http_attached s
step marks_proxy_attached s = mark_proxy_attached s
step marks_read_eof s = mark_read_eof s
step clears_read_eof s = clear_read_eof s
step marks_closed s = mark_closed s
step (sets_bind_address a) s = set_bind_address a s
step (sets_target a h p) s = set_target a h p s
step (marks_connected l p) s = mark_connected l p s
step (marks_failed m) s = mark_failed m s

unfoldable pub run : List TcpStep → TcpSocketState → TcpSocketState
run [] s = s
run (t ∷ ts) s = run ts (step t s)

-- What the addresses of a socket hold in each phase.
abbrev pub TcpFits : TcpSocketPhase → SocketAddressState → Type 0
TcpFits inactive c = c ≡ default_addresses
TcpFits bound c =
    (c.present ≡ true) × (c.failure_message ≡ none) × (c.target ≡ none) × (c.peer_address ≡ none)
TcpFits configured c =
    (c.present ≡ true) × (c.failure_message ≡ none) × (c.target ≢ none) × (c.peer_address ≡ none)
TcpFits connected c = (c.present ≡ true) × (c.failure_message ≡ none) × (c.peer_address ≢ none)
TcpFits closed c = Unit
TcpFits failed c = c.present ≡ true
TcpFits _ c = (c.present ≡ true) × (c.failure_message ≡ none)

all_steps : Unit {0}
unfolding step set_bind_address set_target mark_connected mark_upgraded_tls mark_mqtt_attached
    mark_http_attached mark_proxy_attached mark_read_eof clear_read_eof mark_closed mark_failed
    Sockets.set_bind_address Sockets.set_target Sockets.mark_connected Sockets.mark_failed
    mark_present clear_failure optional_value
all_steps = tt

bind-TcpFits :
    (p : TcpSocketPhase) (a : Text) (c : SocketAddressState)
    → TcpFits p c
    → TcpFits (bound_if_inactive p) (Sockets.set_bind_address a c)
unfolding all_steps
bind-TcpFits inactive a c h = (refl, refl, ap (λ x. x.target) h, ap (λ x. x.peer_address) h)
bind-TcpFits bound a c (_, _, t, p) = (refl, refl, t, p)
bind-TcpFits configured a c (_, _, t, p) = (refl, refl, t, p)
bind-TcpFits connected a c (_, _, p) = (refl, refl, p)
bind-TcpFits upgraded_tls a c h = (refl, refl)
bind-TcpFits attached_mqtt a c h = (refl, refl)
bind-TcpFits attached_http a c h = (refl, refl)
bind-TcpFits attached_proxy a c h = (refl, refl)
bind-TcpFits closed a c h = tt
bind-TcpFits failed a c h = refl

step-TcpFits :
    (t : TcpStep) (s : TcpSocketState)
    → TcpFits s.phase s.core
    → TcpFits (step t s).phase (step t s).core
unfolding all_steps
step-TcpFits marks_upgraded_tls s h = (refl, refl)
step-TcpFits marks_mqtt_attached s h = (refl, refl)
step-TcpFits marks_http_attached s h = (refl, refl)
step-TcpFits marks_proxy_attached s h = (refl, refl)
step-TcpFits marks_read_eof s h = h
step-TcpFits clears_read_eof s h = h
step-TcpFits marks_closed s h = tt
step-TcpFits (sets_bind_address a) s h = bind-TcpFits s.phase a s.core h
step-TcpFits (sets_target a n p) s h = (refl, refl, λ e. absurd (ground arith), refl)
step-TcpFits (marks_connected l p) s h = (refl, refl, λ e. absurd (ground arith))
step-TcpFits (marks_failed m) s h = refl

run-step-TcpFits :
    (ts : List TcpStep) (s : TcpSocketState)
    → TcpFits s.phase s.core
    → TcpFits (run ts s).phase (run ts s).core
unfolding run
run-step-TcpFits [] s h = h
run-step-TcpFits (t ∷ ts) s h = run-step-TcpFits ts (step t s) (step-TcpFits t s h)

-- Whatever methods are called on a fresh TCP socket, in any order: while it is inactive its addresses
-- are the default ones, so it is not present; in every other phase but closed it is present; while
-- it is bound it has no target and no peer, while it is configured a target and no peer, while it
-- is connected a peer; and it has a failure message at most while it is closed or failed.
pub run-TcpFits :
    (ts : List TcpStep) → TcpFits (run ts default_socket).phase (run ts default_socket).core
run-TcpFits ts = run-step-TcpFits ts default_socket refl

-- However a socket came to its state, once a target is set its peer address reads as the target's
-- authority, however often it is bound again afterwards, until it is connected: then it reads as
-- the address the connection reports.
pub peer_address_follows :
    (ts : List TcpStep) (authority host local_address peer address : Text) (port : ℕ)
    → let configured_socket =
        set_bind_address address (set_target authority host port (run ts default_socket)) in
      (peer_address configured_socket ≡ authority)
      × (configured_socket.phase ≡ configured)
      × (peer_address (mark_connected local_address peer configured_socket) ≡ peer)
unfolding all_steps peer_address peer_address_text target_authority or_default
peer_address_follows ts authority host local_address peer address port = (refl, refl, refl)
