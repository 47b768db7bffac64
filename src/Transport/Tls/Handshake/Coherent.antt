-- ===== src/Transport/Tls/Handshake/Coherent.antt =====
-- state.rs: what holds of a TLS flow after any sequence of its methods.
use pd_edge.Common.{◌≡◌, ◌≢◌, refl, Option, none, some, Bool, true, false, if◌then◌else◌, arith}
use pd_edge.Common.Bytes.{Text}
use pd_edge.Transport.Tls.{TlsFlowState, observe_target_parts, observe_socket_target}
use pd_edge.Transport.Tls.Types.{TlsSessionPath, TlsHandshakePhase}
use pd_edge.Transport.Tls.Handshake.{
  note_handshake_resumed, mark_closed, mark_failed, if_present, full_if_none, is_failed,
}

-- Plaintext flows only after a complete handshake, a handshake is complete only where TLS is
-- present and by a known path, the phases plaintext-ready, closed and failed tell the truth, and a
-- flow without TLS is in no phase.
abbrev pub IsCoherent : TlsFlowState → Type 0
IsCoherent f =
    (f.plaintext_ready ≡ true → f.handshake_complete ≡ true)
    × (f.handshake_complete ≡ true → f.session_path ≢ TlsSessionPath.none)
    × (f.phase ≡ TlsHandshakePhase.plaintext_ready → f.plaintext_ready ≡ true)
    × (f.phase ≡ TlsHandshakePhase.closed → f.plaintext_ready ≡ false)
    × (f.phase ≡ TlsHandshakePhase.failed → f.handshake_complete ≡ false)
    × (f.present ≡ false
        → (f.handshake_complete ≡ false)
          × (f.phase ≡ TlsHandshakePhase.none)
          × (f.session_path ≡ TlsSessionPath.none))

pub if-IsCoherent :
    (b : Bool) (g f : TlsFlowState)
    → (b ≡ true → IsCoherent g)
    → (b ≡ false → IsCoherent f)
    → IsCoherent (if b then g else f)
if-IsCoherent true g f h k = h refl
if-IsCoherent false g f h k = k refl

pub if_present-IsCoherent :
    (f g : TlsFlowState)
    → (f.present ≡ true → IsCoherent g)
    → IsCoherent f
    → IsCoherent (if_present f g)
unfolding if_present
if_present-IsCoherent f g h k = if-IsCoherent f.present g f h (λ _. k)

-- A phase that is none of plaintext-ready, closed and failed.
abbrev pub IsUnderway : TlsHandshakePhase → Type 0
IsUnderway p =
    (p ≢ TlsHandshakePhase.plaintext_ready)
    × (p ≢ TlsHandshakePhase.closed)
    × (p ≢ TlsHandshakePhase.failed)

pub note-IsCoherent :
    (f : TlsFlowState) (p : TlsHandshakePhase) (der : Option Text)
    → IsUnderway p
    → IsCoherent f
    → IsCoherent (if_present f (record f { phase = p; peer_certificate_der = der }))
note-IsCoherent f p der (u, v, w) (a, b, c, d, e, g) =
    if_present-IsCoherent f (record f { phase = p; peer_certificate_der = der })
      (λ x.
        (a, b, λ q. absurd (u q), λ q. absurd (v q), λ q. absurd (w q), λ n. absurd (ground arith)))
      (a, b, c, d, e, g)

pub observe_target_parts-IsCoherent :
    (b : Bool) (p : Option Text) (f : TlsFlowState) → IsCoherent (observe_target_parts b p f)
unfolding observe_target_parts
observe_target_parts-IsCoherent true p f = (
  λ e. absurd (ground arith),
  λ e. absurd (ground arith),
  λ e. absurd (ground arith),
  λ e. absurd (ground arith),
  λ e. absurd (ground arith),
  λ e. absurd (ground arith),
)
observe_target_parts-IsCoherent false p f = (
  λ e. absurd (ground arith),
  λ e. absurd (ground arith),
  λ e. absurd (ground arith),
  λ e. absurd (ground arith),
  λ e. absurd (ground arith),
  λ e. (refl, refl, refl),
)

pub observe_socket_target-IsCoherent :
    (p : Option Text) (f : TlsFlowState) → IsCoherent (observe_socket_target p f)
unfolding observe_socket_target
observe_socket_target-IsCoherent (some p) f = (
  λ e. absurd (ground arith),
  λ e. absurd (ground arith),
  λ e. absurd (ground arith),
  λ e. absurd (ground arith),
  λ e. absurd (ground arith),
  λ e. absurd (ground arith),
)
observe_socket_target-IsCoherent none f = (
  λ e. absurd (ground arith),
  λ e. absurd (ground arith),
  λ e. absurd (ground arith),
  λ e. absurd (ground arith),
  λ e. absurd (ground arith),
  λ e. (refl, refl, refl),
)

pub resumed-IsCoherent : (f : TlsFlowState) → IsCoherent f → IsCoherent (note_handshake_resumed f)
unfolding note_handshake_resumed
resumed-IsCoherent f (a, b, c, d, e, g) =
    if_present-IsCoherent f (record f { session_path = TlsSessionPath.session_reuse })
      (λ x. (a, λ y z. absurd (ground arith), c, d, e, λ n. absurd (ground arith)))
      (a, b, c, d, e, g)

pub full_if_none-ne : (p : TlsSessionPath) → full_if_none p ≢ TlsSessionPath.none
unfolding full_if_none
full_if_none-ne TlsSessionPath.none = λ e. absurd (ground arith)
full_if_none-ne TlsSessionPath.opaque = λ e. absurd (ground arith)
full_if_none-ne TlsSessionPath.full_handshake = λ e. absurd (ground arith)
full_if_none-ne TlsSessionPath.session_reuse = λ e. absurd (ground arith)

pub complete-IsCoherent :
    (f g : TlsFlowState)
    → g.handshake_complete ≡ true
    → g.plaintext_ready ≡ true
    → g.phase ≡ TlsHandshakePhase.plaintext_ready
    → g.session_path ≢ TlsSessionPath.none
    → g.present ≡ f.present
    → IsCoherent f
    → IsCoherent (if_present f g)
complete-IsCoherent f g p q r s t h =
    if_present-IsCoherent f g
      (λ x. (
        λ _. p,
        λ _. s,
        λ _. q,
        λ y. absurd (ground arith),
        λ y. absurd (ground arith),
        λ n. absurd (ground arith),
      ))
      h

pub mark_closed-IsCoherent : (f : TlsFlowState) → IsCoherent f → IsCoherent (mark_closed f)
unfolding mark_closed
mark_closed-IsCoherent f (a, b, c, d, e, g) =
    if_present-IsCoherent f
      (if is_failed f.phase
        then f
        else record f { plaintext_ready = false; phase = TlsHandshakePhase.closed })
      (λ x.
        if-IsCoherent (is_failed f.phase) f
          (record f { plaintext_ready = false; phase = TlsHandshakePhase.closed })
          (λ _. (a, b, c, d, e, g))
          (λ _. (
            λ y. absurd (ground arith),
            b,
            λ y. absurd (ground arith),
            λ y. refl,
            λ y. absurd (ground arith),
            λ n. absurd (ground arith),
          )))
      (a, b, c, d, e, g)

pub mark_failed-IsCoherent : (f : TlsFlowState) → IsCoherent f → IsCoherent (mark_failed f)
unfolding mark_failed
mark_failed-IsCoherent f h =
    if_present-IsCoherent f
      (record f {
        handshake_complete = false;
        plaintext_ready = false;
        phase = TlsHandshakePhase.failed;
      })
      (λ x. (
        λ y. absurd (ground arith),
        λ y. absurd (ground arith),
        λ y. absurd (ground arith),
        λ y. refl,
        λ y. refl,
        λ n. absurd (ground arith),
      ))
      h
