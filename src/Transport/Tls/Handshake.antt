-- ===== src/Transport/Tls/Handshake.antt =====
-- state.rs: the methods of `TlsFlowState` that configure a flow and follow its handshake.
use pd_edge.Common.{
  ◌≡◌, Option, none, some, Bool, true, false, List, [], ◌∷◌, ◌&&◌, not, if◌then◌else◌, is_empty,
}
use pd_edge.Common.Bytes.{Text}
use pd_edge.Transport.Sockets.{optional_value}
use pd_edge.Transport.Tls.{TlsFlowState}
use pd_edge.Transport.Tls.Types.{
  TlsSessionPath, TlsHandshakePhase, TlsConfigurationState, TlsProtocolVersion,
}
pub mod Steps
pub mod Coherent
pub mod Run
pub mod Failure

pub record CachedTlsSession : Type 0 where
  pub negotiated_alpn : Option Text
  pub peer_name : Option Text
  pub server_name : Option Text
  pub peer_certificate_der : Option Text

pub record CachedDownstreamTlsConfiguration : Type 0 where
  pub desired_alpn : List Text
  pub verify_peer : Bool
  pub trusted_certificate_pem : Option Text
  pub server_certificate_pem : Option Text
  pub server_private_key_pem : Option Text
  pub min_version : Option TlsProtocolVersion
  pub max_version : Option TlsProtocolVersion

unfoldable pub set_desired_alpn : List Text → TlsFlowState → TlsFlowState
set_desired_alpn v f = record f {
  desired_alpn = v;
  configuration_state = TlsConfigurationState.configured_explicitly;
}

unfoldable pub set_verify_peer : Bool → TlsFlowState → TlsFlowState
set_verify_peer v f = record f {
  verify_peer = v;
  configuration_state = TlsConfigurationState.configured_explicitly;
}

unfoldable pub set_verify_hostname : Bool → TlsFlowState → TlsFlowState
set_verify_hostname v f = record f {
  verify_hostname = v;
  configuration_state = TlsConfigurationState.configured_explicitly;
}

unfoldable pub set_sni_enabled : Bool → TlsFlowState → TlsFlowState
set_sni_enabled enabled f = record f {
  sni_enabled = enabled;
  configuration_state = TlsConfigurationState.configured_explicitly;
  server_name =
      if enabled && f.present then f.peer_name else if not enabled then none else f.server_name;
}

unfoldable pub set_trusted_certificate_pem : Text → TlsFlowState → TlsFlowState
set_trusted_certificate_pem v f = record f {
  trusted_certificate_pem = optional_value v;
  configuration_state = TlsConfigurationState.configured_explicitly;
}

unfoldable pub set_server_certificate_pem : Text → TlsFlowState → TlsFlowState
set_server_certificate_pem v f = record f {
  server_certificate_pem = optional_value v;
  configuration_state = TlsConfigurationState.configured_explicitly;
}

unfoldable pub set_server_private_key_pem : Text → TlsFlowState → TlsFlowState
set_server_private_key_pem v f = record f {
  server_private_key_pem = optional_value v;
  configuration_state = TlsConfigurationState.configured_explicitly;
}

unfoldable pub set_client_certificate_pem : Text → TlsFlowState → TlsFlowState
set_client_certificate_pem v f = record f {
  client_certificate_pem = optional_value v;
  configuration_state = TlsConfigurationState.configured_explicitly;
}

unfoldable pub set_client_private_key_pem : Text → TlsFlowState → TlsFlowState
set_client_private_key_pem v f = record f {
  client_private_key_pem = optional_value v;
  configuration_state = TlsConfigurationState.configured_explicitly;
}

unfoldable pub set_min_version : Option TlsProtocolVersion → TlsFlowState → TlsFlowState
set_min_version v f = record f {
  min_version = v;
  configuration_state = TlsConfigurationState.configured_explicitly;
}

unfoldable pub set_max_version : Option TlsProtocolVersion → TlsFlowState → TlsFlowState
set_max_version v f = record f {
  max_version = v;
  configuration_state = TlsConfigurationState.configured_explicitly;
}

unfoldable pub restore_downstream_configuration :
    CachedDownstreamTlsConfiguration → TlsFlowState → TlsFlowState
restore_downstream_configuration c f = record f {
  desired_alpn = c.desired_alpn;
  verify_peer = c.verify_peer;
  trusted_certificate_pem = c.trusted_certificate_pem;
  server_certificate_pem = c.server_certificate_pem;
  server_private_key_pem = c.server_private_key_pem;
  min_version = c.min_version;
  max_version = c.max_version;
  configuration_state = TlsConfigurationState.configured_restored;
}

-- The early return of the methods that do nothing on a flow without TLS.
unfoldable pub if_present : TlsFlowState → TlsFlowState → TlsFlowState
if_present f g = if f.present then g else f

unfoldable pub note_handshake_prepared : TlsFlowState → TlsFlowState
note_handshake_prepared f = if_present f (record f {
  phase = TlsHandshakePhase.client_hello_prepared;
  handshake_complete = false;
  plaintext_ready = false;
  peer_certificate_der = none;
})

unfoldable pub note_client_hello_sent : TlsFlowState → TlsFlowState
note_client_hello_sent f = if_present f (record f { phase = TlsHandshakePhase.client_hello_sent })

unfoldable pub note_server_hello_received : TlsFlowState → TlsFlowState
note_server_hello_received f =
    if_present f (record f { phase = TlsHandshakePhase.server_hello_received })

unfoldable pub note_server_certificate_verified : TlsFlowState → TlsFlowState
note_server_certificate_verified f =
    if_present f (record f { phase = TlsHandshakePhase.server_certificate_verified })

unfoldable pub note_verification_skipped : TlsFlowState → TlsFlowState
note_verification_skipped f =
    if_present f (record f { phase = TlsHandshakePhase.verification_skipped })

unfoldable pub note_server_certificate_received : Option Text → TlsFlowState → TlsFlowState
note_server_certificate_received der f =
    if_present f (record f {
      phase = TlsHandshakePhase.server_certificate_received;
      peer_certificate_der = der;
    })

unfoldable pub note_handshake_resumed : TlsFlowState → TlsFlowState
note_handshake_resumed f = if_present f (record f { session_path = TlsSessionPath.session_reuse })

unfoldable pub full_if_none : TlsSessionPath → TlsSessionPath
full_if_none TlsSessionPath.none = TlsSessionPath.full_handshake
full_if_none p = p

unfoldable pub mark_handshake_complete : Option Text → TlsFlowState → TlsFlowState
mark_handshake_complete negotiated_alpn f = if_present f (record f {
  handshake_complete = true;
  plaintext_ready = true;
  phase = TlsHandshakePhase.plaintext_ready;
  session_path = full_if_none f.session_path;
  alpn = negotiated_alpn;
})

-- The first text, where there is one, else the second.
unfoldable pub or_else : Option Text → Option Text → Option Text
or_else (some x) other = some x
or_else none other = other

unfoldable pub mark_session_reused : CachedTlsSession → TlsFlowState → TlsFlowState
mark_session_reused cached f = if_present f (record f {
  handshake_complete = true;
  plaintext_ready = true;
  session_path = TlsSessionPath.session_reuse;
  phase = TlsHandshakePhase.plaintext_ready;
  alpn = cached.negotiated_alpn;
  peer_certificate_der = cached.peer_certificate_der;
  peer_name = or_else cached.peer_name f.peer_name;
  server_name =
      if f.sni_enabled
      then or_else cached.server_name (or_else cached.peer_name f.peer_name)
      else none;
})

unfoldable pub is_failed : TlsHandshakePhase → Bool
is_failed TlsHandshakePhase.failed = true
is_failed p = false

unfoldable pub mark_closed : TlsFlowState → TlsFlowState
mark_closed f = if_present f (
    if is_failed f.phase
    then f
    else record f { plaintext_ready = false; phase = TlsHandshakePhase.closed })

unfoldable pub mark_failed : TlsFlowState → TlsFlowState
mark_failed f = if_present f (record f {
  handshake_complete = false;
  plaintext_ready = false;
  phase = TlsHandshakePhase.failed;
})
