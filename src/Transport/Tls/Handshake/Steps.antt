-- ===== src/Transport/Tls/Handshake/Steps.antt =====
-- state.rs: the methods of `TlsFlowState` that change a flow, as steps.
use pd_edge.Common.{List, [], ◌∷◌, Option, Bool}
use pd_edge.Common.Bytes.{Text}
use pd_edge.Transport.Tls.{
  TlsFlowState, observe_target, observe_target_parts, observe_socket_target,
  observe_downstream_client_hello,
}
use pd_edge.Transport.Tls.Types.{TlsProtocolVersion}
use pd_edge.Transport.Tls.Handshake.{
  note_handshake_prepared, note_client_hello_sent, note_server_hello_received,
  note_server_certificate_verified, note_verification_skipped, note_handshake_resumed, mark_closed,
  mark_failed, set_desired_alpn, set_verify_peer, set_verify_hostname, set_sni_enabled,
  set_trusted_certificate_pem, set_server_certificate_pem, set_server_private_key_pem,
  set_client_certificate_pem, set_client_private_key_pem, set_min_version, set_max_version,
  restore_downstream_configuration, note_server_certificate_received, mark_handshake_complete,
  mark_session_reused, CachedTlsSession, CachedDownstreamTlsConfiguration,
}

pub data TlsStep : Type 0 where
  notes_handshake_prepared : TlsStep
  notes_client_hello_sent : TlsStep
  notes_server_hello_received : TlsStep
  notes_server_certificate_verified : TlsStep
  notes_verification_skipped : TlsStep
  notes_handshake_resumed : TlsStep
  marks_closed : TlsStep
  marks_failed : TlsStep
  sets_desired_alpn : List Text → TlsStep
  sets_verify_peer : Bool → TlsStep
  sets_verify_hostname : Bool → TlsStep
  sets_sni_enabled : Bool → TlsStep
  sets_trusted_certificate_pem : Text → TlsStep
  sets_server_certificate_pem : Text → TlsStep
  sets_server_private_key_pem : Text → TlsStep
  sets_client_certificate_pem : Text → TlsStep
  sets_client_private_key_pem : Text → TlsStep
  sets_min_version : Option TlsProtocolVersion → TlsStep
  sets_max_version : Option TlsProtocolVersion → TlsStep
  restores_downstream_configuration : CachedDownstreamTlsConfiguration → TlsStep
  observes_socket_target : Option Text → TlsStep
  observes_downstream_client_hello : Option Text → TlsStep
  notes_server_certificate_received : Option Text → TlsStep
  marks_handshake_complete : Option Text → TlsStep
  marks_session_reused : CachedTlsSession → TlsStep
  observes_target : Text → Option Text → TlsStep
  observes_target_parts : Bool → Option Text → TlsStep

unfoldable pub step : TlsStep → TlsFlowState → TlsFlowState
step notes_handshake_prepared f = note_handshake_prepared f
step notes_client_hello_sent f = note_client_hello_sent f
step notes_server_hello_received f = note_server_hello_received f
step notes_server_certificate_verified f = note_server_certificate_verified f
step notes_verification_skipped f = note_verification_skipped f
step notes_handshake_resumed f = note_handshake_resumed f
step marks_closed f = mark_closed f
step marks_failed f = mark_failed f
step (sets_desired_alpn a) f = set_desired_alpn a f
step (sets_verify_peer a) f = set_verify_peer a f
step (sets_verify_hostname a) f = set_verify_hostname a f
step (sets_sni_enabled a) f = set_sni_enabled a f
step (sets_trusted_certificate_pem a) f = set_trusted_certificate_pem a f
step (sets_server_certificate_pem a) f = set_server_certificate_pem a f
step (sets_server_private_key_pem a) f = set_server_private_key_pem a f
step (sets_client_certificate_pem a) f = set_client_certificate_pem a f
step (sets_client_private_key_pem a) f = set_client_private_key_pem a f
step (sets_min_version a) f = set_min_version a f
step (sets_max_version a) f = set_max_version a f
step (restores_downstream_configuration a) f = restore_downstream_configuration a f
step (observes_socket_target a) f = observe_socket_target a f
step (observes_downstream_client_hello a) f = observe_downstream_client_hello a f
step (notes_server_certificate_received a) f = note_server_certificate_received a f
step (marks_handshake_complete a) f = mark_handshake_complete a f
step (marks_session_reused a) f = mark_session_reused a f
step (observes_target a b) f = observe_target a b f
step (observes_target_parts a b) f = observe_target_parts a b f

unfoldable pub run : List TlsStep → TlsFlowState → TlsFlowState
run [] f = f
run (s ∷ ss) f = run ss (step s f)
