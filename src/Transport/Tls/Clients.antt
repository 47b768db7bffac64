-- ===== src/Transport/Tls/Clients.antt =====
-- state.rs: which client a TLS flow needs, and which protocols it accepts.
use pd_edge.Common.{Option, none, some, Bool, true, false, List, [], ◌∷◌, ◌||◌, not, is_empty}
use pd_edge.Common.Bytes.{Text, text_eq}
use pd_edge.Transport.Tls.{TlsFlowState, is_some}
use pd_edge.Transport.Tls.Types.{TlsProtocolVersion}

unfoldable pub some_version : Option TlsProtocolVersion → Bool
some_version none = false
some_version (some _) = true

unfoldable pub requires_custom_client : TlsFlowState → Bool
requires_custom_client f =
    not (is_empty f.desired_alpn)
    || not f.verify_peer
    || not f.verify_hostname
    || not f.sni_enabled
    || is_some f.trusted_certificate_pem
    || is_some f.client_certificate_pem
    || is_some f.client_private_key_pem
    || some_version f.min_version
    || some_version f.max_version

unfoldable pub any_eq : Text → List Text → Bool
any_eq t [] = false
any_eq t (x ∷ xs) = text_eq x t || any_eq t xs

unfoldable pub accepts_negotiated_alpn : Option Text → TlsFlowState → Bool
accepts_negotiated_alpn negotiated f = is_empty f.desired_alpn || configured negotiated
  where
    configured : Option Text → Bool
    configured none = false
    configured (some t) = any_eq t f.desired_alpn
