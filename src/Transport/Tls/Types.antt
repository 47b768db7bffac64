-- ===== src/Transport/Tls/Types.antt =====
-- state.rs: the phases, versions and paths of a TLS flow.
pub data TlsSessionPath : Type 0 where
  none opaque full_handshake session_reuse : TlsSessionPath

pub data TlsHandshakePhase : Type 0 where
  none configured client_hello_received client_hello_prepared client_hello_sent : TlsHandshakePhase
  server_hello_received server_certificate_received server_certificate_verified : TlsHandshakePhase
  verification_skipped plaintext_ready closed failed opaque_established : TlsHandshakePhase

pub data TlsConfigurationState : Type 0 where
  none needs_configuration configured_explicitly configured_restored : TlsConfigurationState

pub data TlsProtocolVersion : Type 0 where
  tls1_0 tls1_1 tls1_2 tls1_3 : TlsProtocolVersion
