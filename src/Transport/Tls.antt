-- ===== src/Transport/Tls.antt =====
-- state.rs: `TlsFlowState`, the configuration and the handshake of a TLS flow.
use pd_edge.Common.{
  map, ◌≡◌, Option, none, some, Bool, true, false, List, [], ◌∷◌, ◌&&◌, ◌||◌, ◌==◌, not,
  if◌then◌else◌, is_empty, ◌++◌,
}
use pd_edge.Common.Bytes.{Text, text, text_eq, lowercase_byte}
use pd_edge.Transport.Tls.Types.{
  TlsSessionPath, TlsHandshakePhase, TlsConfigurationState, TlsProtocolVersion,
}
pub mod Types
pub mod Host
pub mod Handshake
pub mod Clients
pub mod Keys

pub record TlsFlowState : Type 0 where
  pub present : Bool
  pub handshake_complete : Bool
  pub plaintext_ready : Bool
  pub session_path : TlsSessionPath
  pub phase : TlsHandshakePhase
  pub configuration_state : TlsConfigurationState
  pub peer_name : Option Text
  pub server_name : Option Text
  pub alpn : Option Text
  pub desired_alpn : List Text
  pub verify_peer : Bool
  pub verify_hostname : Bool
  pub sni_enabled : Bool
  pub trusted_certificate_pem : Option Text
  pub server_certificate_pem : Option Text
  pub server_private_key_pem : Option Text
  pub client_certificate_pem : Option Text
  pub client_private_key_pem : Option Text
  pub min_version : Option TlsProtocolVersion
  pub max_version : Option TlsProtocolVersion
  pub peer_certificate_der : Option Text

abbrev pub default_flow : TlsFlowState
default_flow = record {
  present = false;
  handshake_complete = false;
  plaintext_ready = false;
  session_path = TlsSessionPath.none;
  phase = TlsHandshakePhase.none;
  configuration_state = TlsConfigurationState.none;
  peer_name = none;
  server_name = none;
  alpn = none;
  desired_alpn = [];
  verify_peer = true;
  verify_hostname = true;
  sni_enabled = true;
  trusted_certificate_pem = none;
  server_certificate_pem = none;
  server_private_key_pem = none;
  client_certificate_pem = none;
  client_private_key_pem = none;
  min_version = none;
  max_version = none;
  peer_certificate_der = none;
}

-- `alpn_from_http_version_label`
unfoldable pub alpn_from_http_version_label : Text → Option Text
alpn_from_http_version_label version =
    if text_eq version (text "0.9")
    then some (text "http/0.9")
    else if text_eq version (text "1.0")
    then some (text "http/1.0")
    else if text_eq version (text "1.1")
    then some (text "http/1.1")
    else if text_eq version (text "2")
    then some (text "h2")
    else if text_eq version (text "3")
    then some (text "h3")
    else none

-- The flow of a request that already came over TLS, whose server name is `host`, normalized.
abbrev opaque_flow : Option Text → Option Text → TlsFlowState
opaque_flow host alpn = record default_flow {
  present = true;
  handshake_complete = true;
  plaintext_ready = true;
  session_path = TlsSessionPath.opaque;
  phase = TlsHandshakePhase.opaque_established;
  configuration_state = TlsConfigurationState.configured_restored;
  server_name = host;
  alpn = alpn;
}

-- `host` is the request's host, normalized.
unfoldable pub for_downstream_request : Text → Option Text → Text → TlsFlowState
for_downstream_request scheme host http_version =
    if not (text_eq (map lowercase_byte scheme) (text "https"))
    then default_flow
    else opaque_flow host (alpn_from_http_version_label http_version)

unfoldable pub for_dynamic_socket : TlsFlowState
for_dynamic_socket = record default_flow {
  present = true;
  phase = TlsHandshakePhase.configured;
  configuration_state = TlsConfigurationState.configured_explicitly;
}

abbrev configured_if : Bool → TlsHandshakePhase
configured_if true = TlsHandshakePhase.configured
configured_if false = TlsHandshakePhase.none

abbrev pub is_some : Option Text → Bool
is_some none = false
is_some (some _) = true

unfoldable pub observe_target_parts : Bool → Option Text → TlsFlowState → TlsFlowState
observe_target_parts tls_present peer_name f = record f {
  present = tls_present;
  handshake_complete = false;
  plaintext_ready = false;
  session_path = TlsSessionPath.none;
  configuration_state = TlsConfigurationState.configured_explicitly;
  peer_name = peer_name;
  server_name = if tls_present && f.sni_enabled then peer_name else none;
  alpn = none;
  peer_certificate_der = none;
  phase = configured_if tls_present;
}

-- `host` is the target's host, normalized.
unfoldable pub observe_target : Text → Option Text → TlsFlowState → TlsFlowState
observe_target scheme host f =
    let lower = map lowercase_byte scheme in
    observe_target_parts (text_eq lower (text "https") || text_eq lower (text "wss")) host f

-- `peer_name` is the target's host, normalized.
unfoldable pub observe_socket_target : Option Text → TlsFlowState → TlsFlowState
observe_socket_target peer_name f = record f {
  present = is_some peer_name;
  handshake_complete = false;
  plaintext_ready = false;
  session_path = TlsSessionPath.none;
  configuration_state = TlsConfigurationState.configured_explicitly;
  peer_name = peer_name;
  server_name = if is_some peer_name && f.sni_enabled then peer_name else none;
  alpn = none;
  peer_certificate_der = none;
  phase = configured_if (is_some peer_name);
}

unfoldable pub observe_downstream_client_hello : Option Text → TlsFlowState → TlsFlowState
observe_downstream_client_hello server_name f = record f {
  present = true;
  handshake_complete = false;
  plaintext_ready = false;
  session_path = TlsSessionPath.none;
  configuration_state = TlsConfigurationState.needs_configuration;
  peer_name = none;
  server_name = server_name;
  alpn = none;
  peer_certificate_der = none;
  phase = TlsHandshakePhase.client_hello_received;
}
