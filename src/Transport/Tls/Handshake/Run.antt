-- ===== src/Transport/Tls/Handshake/Run.antt =====
-- state.rs: a TLS flow stays coherent under any sequence of its methods.
use pd_edge.Common.{map, refl, List, [], ◌∷◌, Option, not, arith}
use pd_edge.Common.Bytes.{Text, text, text_eq, lowercase_byte}
use pd_edge.Transport.Tls.{
  TlsFlowState, default_flow, for_downstream_request, for_dynamic_socket, observe_target,
  observe_target_parts, observe_socket_target, observe_downstream_client_hello,
}
use pd_edge.Transport.Tls.Types.{TlsHandshakePhase}
use pd_edge.Transport.Tls.Handshake.{
  note_handshake_prepared, note_client_hello_sent, note_server_hello_received,
  note_server_certificate_verified, note_verification_skipped, note_handshake_resumed, mark_closed,
  mark_failed, set_desired_alpn, set_verify_peer, set_verify_hostname, set_sni_enabled,
  set_trusted_certificate_pem, set_server_certificate_pem, set_server_private_key_pem,
  set_client_certificate_pem, set_client_private_key_pem, set_min_version, set_max_version,
  restore_downstream_configuration, note_server_certificate_received, mark_handshake_complete,
  mark_session_reused, full_if_none, is_failed,
}
use pd_edge.Transport.Tls.Handshake.Steps.{
  TlsStep, step, run, notes_handshake_prepared, notes_client_hello_sent,
  notes_server_hello_received, notes_server_certificate_verified, notes_verification_skipped,
  notes_handshake_resumed, marks_closed, marks_failed, sets_desired_alpn, sets_verify_peer,
  sets_verify_hostname, sets_sni_enabled, sets_trusted_certificate_pem, sets_server_certificate_pem,
  sets_server_private_key_pem, sets_client_certificate_pem, sets_client_private_key_pem,
  sets_min_version, sets_max_version, restores_downstream_configuration, observes_socket_target,
  observes_downstream_client_hello, notes_server_certificate_received, marks_handshake_complete,
  marks_session_reused, observes_target, observes_target_parts,
}
use pd_edge.Transport.Tls.Handshake.Coherent.{
  IsCoherent, if-IsCoherent, if_present-IsCoherent, note-IsCoherent,
  observe_target_parts-IsCoherent, observe_socket_target-IsCoherent, resumed-IsCoherent,
  full_if_none-ne, complete-IsCoherent, mark_closed-IsCoherent, mark_failed-IsCoherent,
}

step-IsCoherent : (s : TlsStep) (f : TlsFlowState) → IsCoherent f → IsCoherent (step s f)
unfolding step note_handshake_prepared note_client_hello_sent note_server_hello_received
    note_server_certificate_verified note_verification_skipped note_handshake_resumed mark_closed
    mark_failed set_desired_alpn set_verify_peer set_verify_hostname set_sni_enabled
    set_trusted_certificate_pem set_server_certificate_pem set_server_private_key_pem
    set_client_certificate_pem set_client_private_key_pem set_min_version set_max_version
    restore_downstream_configuration observe_socket_target observe_downstream_client_hello
    note_server_certificate_received mark_handshake_complete mark_session_reused observe_target
    observe_target_parts full_if_none is_failed
step-IsCoherent notes_handshake_prepared f h =
    if_present-IsCoherent f _
      (λ p. (
        λ e. absurd (ground arith),
        λ e. absurd (ground arith),
        λ e. absurd (ground arith),
        λ e. absurd (ground arith),
        λ e. absurd (ground arith),
        λ e. absurd (ground arith),
      ))
      h
step-IsCoherent notes_client_hello_sent f h =
    note-IsCoherent f TlsHandshakePhase.client_hello_sent f.peer_certificate_der
      (λ e. absurd (ground arith), λ e. absurd (ground arith), λ e. absurd (ground arith)) h
step-IsCoherent notes_server_hello_received f h =
    note-IsCoherent f TlsHandshakePhase.server_hello_received f.peer_certificate_der
      (λ e. absurd (ground arith), λ e. absurd (ground arith), λ e. absurd (ground arith)) h
step-IsCoherent notes_server_certificate_verified f h =
    note-IsCoherent f TlsHandshakePhase.server_certificate_verified f.peer_certificate_der
      (λ e. absurd (ground arith), λ e. absurd (ground arith), λ e. absurd (ground arith)) h
step-IsCoherent notes_verification_skipped f h =
    note-IsCoherent f TlsHandshakePhase.verification_skipped f.peer_certificate_der
      (λ e. absurd (ground arith), λ e. absurd (ground arith), λ e. absurd (ground arith)) h
step-IsCoherent notes_handshake_resumed f h = resumed-IsCoherent f h
step-IsCoherent marks_closed f h = mark_closed-IsCoherent f h
step-IsCoherent marks_failed f h = mark_failed-IsCoherent f h
step-IsCoherent (sets_desired_alpn a) f h = h
step-IsCoherent (sets_verify_peer a) f h = h
step-IsCoherent (sets_verify_hostname a) f h = h
step-IsCoherent (sets_sni_enabled a) f h = h
step-IsCoherent (sets_trusted_certificate_pem a) f h = h
step-IsCoherent (sets_server_certificate_pem a) f h = h
step-IsCoherent (sets_server_private_key_pem a) f h = h
step-IsCoherent (sets_client_certificate_pem a) f h = h
step-IsCoherent (sets_client_private_key_pem a) f h = h
step-IsCoherent (sets_min_version a) f h = h
step-IsCoherent (sets_max_version a) f h = h
step-IsCoherent (restores_downstream_configuration a) f h = h
step-IsCoherent (observes_socket_target a) f h = observe_socket_target-IsCoherent a f
step-IsCoherent (observes_downstream_client_hello a) f h = (
  λ e. absurd (ground arith),
  λ e. absurd (ground arith),
  λ e. absurd (ground arith),
  λ e. absurd (ground arith),
  λ e. absurd (ground arith),
  λ e. absurd (ground arith),
)
step-IsCoherent (notes_server_certificate_received a) f h =
    note-IsCoherent f TlsHandshakePhase.server_certificate_received a
      (λ e. absurd (ground arith), λ e. absurd (ground arith), λ e. absurd (ground arith)) h
step-IsCoherent (marks_handshake_complete a) f h =
    complete-IsCoherent f _ refl refl refl (full_if_none-ne f.session_path) refl h
step-IsCoherent (marks_session_reused a) f h =
    complete-IsCoherent f _ refl refl refl (λ e. absurd (ground arith)) refl h
step-IsCoherent (observes_target a b) f h = observe_target_parts-IsCoherent _ b f
step-IsCoherent (observes_target_parts a b) f h = observe_target_parts-IsCoherent a b f

run-step-IsCoherent : (ss : List TlsStep) (f : TlsFlowState) → IsCoherent f → IsCoherent (run ss f)
unfolding run
run-step-IsCoherent [] f h = h
run-step-IsCoherent (s ∷ ss) f h = run-step-IsCoherent ss (step s f) (step-IsCoherent s f h)

default-IsCoherent : IsCoherent default_flow
default-IsCoherent = (
  λ e. absurd (ground arith),
  λ e. absurd (ground arith),
  λ e. absurd (ground arith),
  λ e. absurd (ground arith),
  λ e. absurd (ground arith),
  λ e. (refl, refl, refl),
)

downstream-IsCoherent :
    (scheme : Text) (host : Option Text) (version : Text)
    → IsCoherent (for_downstream_request scheme host version)
unfolding for_downstream_request
downstream-IsCoherent scheme host version =
    if-IsCoherent (not (text_eq (map lowercase_byte scheme) (text "https"))) _ _
      (λ _. default-IsCoherent)
      (λ _. (
        λ e. refl,
        λ e. λ n. absurd (ground arith),
        λ e. refl,
        λ e. absurd (ground arith),
        λ e. absurd (ground arith),
        λ e. absurd (ground arith),
      ))

-- Start a TLS flow in any of the ways there are (the default, for a downstream request of any
-- scheme, host and HTTP version, or for a dynamic socket) and call any of its methods any number of
-- times in any order: plaintext is ready only after a complete handshake; a complete handshake has
-- a session path; the phase plaintext-ready means that plaintext is ready, closed that it is not,
-- and failed that no handshake is complete; and where TLS is not present no handshake is complete
-- and there is neither a phase nor a session path.
pub run-IsCoherent :
    (ss : List TlsStep) (scheme : Text) (host : Option Text) (version : Text)
    → IsCoherent (run ss default_flow)
      × IsCoherent (run ss (for_downstream_request scheme host version))
      × IsCoherent (run ss for_dynamic_socket)
unfolding for_dynamic_socket
run-IsCoherent ss scheme host version = (
  run-step-IsCoherent ss default_flow default-IsCoherent,
  run-step-IsCoherent ss _ (downstream-IsCoherent scheme host version),
  run-step-IsCoherent ss for_dynamic_socket (
    λ e. absurd (ground arith),
    λ e. absurd (ground arith),
    λ e. absurd (ground arith),
    λ e. absurd (ground arith),
    λ e. absurd (ground arith),
    λ e. absurd (ground arith),
  ),
)
