-- ===== src/Transport/Tls/Handshake/Failure.antt =====
-- state.rs: how a TLS flow ends.
use pd_edge.Common.{List, ◌≡◌, refl, Bool, true, false, inl, inr, [], none, arith}
use pd_edge.Common.Tests.{Bool-cases}
use pd_edge.Transport.Tls.{TlsFlowState, default_flow}
use pd_edge.Transport.Tls.Types.{TlsHandshakePhase}
use pd_edge.Transport.Tls.Handshake.{mark_closed, mark_failed, if_present, is_failed}
use pd_edge.Transport.Tls.Handshake.Steps.{TlsStep, run}
use pd_edge.Transport.Tls.Handshake.Coherent.{IsCoherent}
use pd_edge.Transport.Tls.Handshake.Run.{run-IsCoherent}

-- What holds of every flow with TLS and of every flow without it holds of every flow.
by_presence :
    (P : TlsFlowState → Type 0)
    → ((f : TlsFlowState) → P (record f { present = true }))
    → ((f : TlsFlowState) → P (record f { present = false }))
    → (f : TlsFlowState) → P f
by_presence P with_tls without f = at f.present
  where
    at : (b : Bool) → P (record f { present = b })
    at true = with_tls f
    at false = without f

mark_closed-mark_failed : (f : TlsFlowState) → mark_closed (mark_failed f) ≡ mark_failed f
unfolding mark_closed mark_failed if_present is_failed
mark_closed-mark_failed =
    by_presence (λ f. mark_closed (mark_failed f) ≡ mark_failed f) (λ f. refl) (λ f. refl)

mark_closed-mark_closed : (f : TlsFlowState) → mark_closed (mark_closed f) ≡ mark_closed f
unfolding mark_closed if_present is_failed
mark_closed-mark_closed =
    by_presence (λ f. mark_closed (mark_closed f) ≡ mark_closed f)
      (λ f. elim (Bool-cases (is_failed f.phase)) [ inl e ↦ rw (e, e) refl | inr e ↦ rw e refl ])
      (λ f. refl)

is_failed-eq-true : (p : TlsHandshakePhase) → is_failed p ≡ true → p ≡ TlsHandshakePhase.failed
unfolding is_failed
is_failed-eq-true TlsHandshakePhase.failed e = refl
is_failed-eq-true TlsHandshakePhase.none e = absurd (ground arith)
is_failed-eq-true TlsHandshakePhase.configured e = absurd (ground arith)
is_failed-eq-true TlsHandshakePhase.client_hello_received e = absurd (ground arith)
is_failed-eq-true TlsHandshakePhase.client_hello_prepared e = absurd (ground arith)
is_failed-eq-true TlsHandshakePhase.client_hello_sent e = absurd (ground arith)
is_failed-eq-true TlsHandshakePhase.server_hello_received e = absurd (ground arith)
is_failed-eq-true TlsHandshakePhase.server_certificate_received e = absurd (ground arith)
is_failed-eq-true TlsHandshakePhase.server_certificate_verified e = absurd (ground arith)
is_failed-eq-true TlsHandshakePhase.verification_skipped e = absurd (ground arith)
is_failed-eq-true TlsHandshakePhase.plaintext_ready e = absurd (ground arith)
is_failed-eq-true TlsHandshakePhase.closed e = absurd (ground arith)
is_failed-eq-true TlsHandshakePhase.opaque_established e = absurd (ground arith)

not_ready : (b c : Bool) → (b ≡ true → c ≡ true) → c ≡ false → b ≡ false
not_ready true c h e = absurd (ground (arith, h refl))
not_ready false c h e = refl

mark_closed-plaintext_ready :
    (f : TlsFlowState) → IsCoherent f → (mark_closed f).plaintext_ready ≡ false
unfolding mark_closed if_present is_failed
mark_closed-plaintext_ready =
    by_presence (λ f. IsCoherent f → (mark_closed f).plaintext_ready ≡ false)
      (λ f (a, b, c, d, e, g). elim (Bool-cases (is_failed f.phase)) [
        | inl q ↦
            rw q
              (not_ready f.plaintext_ready f.handshake_complete a (e (is_failed-eq-true f.phase q)))
        | inr q ↦ rw q refl
      ])
      (λ f (a, b, c, d, e, g). not_ready f.plaintext_ready f.handshake_complete a (g refl).0)

-- Closing a flow that failed leaves it as it failed; closing a flow twice is closing it once; and
-- a flow that is closed after any sequence of calls on a fresh one has no plaintext ready.
pub closing :
    (f : TlsFlowState) (ss : List TlsStep)
    → (mark_closed (mark_failed f) ≡ mark_failed f)
      × (mark_closed (mark_closed f) ≡ mark_closed f)
      × ((mark_closed (run ss default_flow)).plaintext_ready ≡ false)
closing f ss = (
  mark_closed-mark_failed f,
  mark_closed-mark_closed f,
  mark_closed-plaintext_ready (run ss default_flow) (run-IsCoherent ss [] none []).0,
)
