-- ===== src/Transport/Tls/Keys.antt =====
-- state.rs: the keys of the TLS session caches.
use pd_edge.Common.{
  ◌%◌, ◌+◌, ◌/◌, suc, map, ℕ, zero, Option, none, some, Bool, true, false, List, [], ◌∷◌, ◌&&◌,
  ◌||◌, ◌++◌, not, is_empty, if◌then◌else◌, arith,
}
use pd_edge.Common.Bytes.{Text, text, lowercase_byte}
use pd_edge.Common.Tests.{ltb}
use pd_edge.Transport.Tls.{TlsFlowState, is_some}
use pd_edge.Transport.Tls.Types.{TlsProtocolVersion}
use pd_edge.Transport.Tls.Host.{normalize_authority_host}
pub mod Same

pub record TlsSessionCacheKey : Type 0 where
  pub origin : Text
  pub desired_alpn : List Text
  pub verify_peer : Bool
  pub verify_hostname : Bool
  pub sni_enabled : Bool
  pub trusted_certificate_fingerprint : Option ℕ
  pub client_certificate_fingerprint : Option ℕ
  pub client_private_key_fingerprint : Option ℕ
  pub min_version : Option TlsProtocolVersion
  pub max_version : Option TlsProtocolVersion

pub record DownstreamTlsResumptionKey : Type 0 where
  pub desired_alpn : List Text
  pub client_auth_enabled : Bool
  pub trusted_certificate_fingerprint : Option ℕ
  pub server_certificate_fingerprint : Option ℕ
  pub server_private_key_fingerprint : Option ℕ
  pub min_version : Option TlsProtocolVersion
  pub max_version : Option TlsProtocolVersion

-- A number in decimal, of at most `digits` digits.
unfoldable pub decimal : ℕ → ℕ → Text
decimal zero n = []
decimal (suc digits) n =
    let rest = decimal digits (n / 10) in
    if ltb n 10 then (48 + n) ∷ [] else rest ++ ((48 + n % 10) ∷ [])

module _ (fingerprint : Text → ℕ) where
  -- `fingerprint` is the hash of a text.
  unfoldable pub fingerprint_optional_pem : Option Text → Option ℕ
  fingerprint_optional_pem none = none
  fingerprint_optional_pem (some t) = some (fingerprint t)

  unfoldable pub downstream_tls_resumption_key : TlsFlowState → Option DownstreamTlsResumptionKey
  downstream_tls_resumption_key f =
      let client_auth_enabled = f.verify_peer && is_some f.trusted_certificate_pem in
      if not f.present
      then none
      else some (record {
        desired_alpn = f.desired_alpn;
        client_auth_enabled = client_auth_enabled;
        trusted_certificate_fingerprint =
            if client_auth_enabled
            then fingerprint_optional_pem f.trusted_certificate_pem
            else none;
        server_certificate_fingerprint = fingerprint_optional_pem f.server_certificate_pem;
        server_private_key_fingerprint = fingerprint_optional_pem f.server_private_key_pem;
        min_version = f.min_version;
        max_version = f.max_version;
      })

module _ (authority_host : Text → Option Text) where
  -- A port is a 16-bit number, so it has at most five digits.
  unfoldable pub tls_session_origin : Text → Text → ℕ → Option Text
  tls_session_origin scheme host port = origin (normalize_authority_host authority_host host)
    where
      origin : Option Text → Option Text
      origin none = none
      origin (some name) = some (
          map lowercase_byte scheme
          ++ text "://"
          ++ map lowercase_byte name
          ++ text ":"
          ++ decimal 5 port)

module _ (authority_host : Text → Option Text) (fingerprint : Text → ℕ) where
  unfoldable pub key_of : TlsFlowState → Option Text → Option TlsSessionCacheKey
  key_of f none = none
  key_of f (some origin) = some (record {
    origin = origin;
    desired_alpn = f.desired_alpn;
    verify_peer = f.verify_peer;
    verify_hostname = f.verify_hostname;
    sni_enabled = f.sni_enabled;
    trusted_certificate_fingerprint =
        fingerprint_optional_pem fingerprint f.trusted_certificate_pem;
    client_certificate_fingerprint = fingerprint_optional_pem fingerprint f.client_certificate_pem;
    client_private_key_fingerprint = fingerprint_optional_pem fingerprint f.client_private_key_pem;
    min_version = f.min_version;
    max_version = f.max_version;
  })

  unfoldable pub tls_session_cache_key : Text → Text → ℕ → TlsFlowState → Option TlsSessionCacheKey
  tls_session_cache_key scheme host port f =
      if not f.present then none else key_of f (tls_session_origin authority_host scheme host port)
