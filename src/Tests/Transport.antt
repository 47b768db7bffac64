-- ===== src/Tests/Transport.antt =====
-- state.rs: the theorems on transport states, at concrete runs.
use pd_edge.Common.{◌≡◌, refl, List, [], ◌∷◌, none, some, true, false}
use pd_edge.Common.Bytes.{text, lowercase_byte}
use pd_edge.Transport.TcpFlow.{
  default_flow, mark_failed, HasMessageIfFailed, failure_is_kept, configures, marks_connected,
  notes_read, marks_closed, reads, closes,
}
use pd_edge.Transport.TcpFlow
use pd_edge.Transport.Sockets.Tcp
use pd_edge.Transport.Sockets.Tcp.{run-TcpFits, peer_address_follows}
use pd_edge.Transport.Tls
use pd_edge.Transport.Tls.{TlsFlowState, for_downstream_request, for_dynamic_socket}
use pd_edge.Transport.Tls.Handshake
use pd_edge.Transport.Tls.Handshake.Steps
use pd_edge.Transport.Tls.Handshake.Coherent.{IsCoherent}
use pd_edge.Transport.Tls.Handshake.Run.{run-IsCoherent}
use pd_edge.Transport.Tls.Handshake.Failure.{closing}
use pd_edge.Transport.Tls.Keys.{
  key_of, tls_session_origin, decimal, fingerprint_optional_pem, tls_session_cache_key,
  TlsSessionCacheKey,
}
use pd_edge.Transport.Tls.Host.{
  normalize_authority_host, trim_brackets, trim_start, trim_end, is_bracket,
}
use pd_edge.Transport.Tls.Clients.{requires_custom_client, accepts_negotiated_alpn}
use pd_edge.Transport.Tls.Keys.Same.{same_key}

failure_is_kept_example :
    HasMessageIfFailed (TcpFlow.run (configures ∷ marks_connected ∷ []) default_flow)
    × ((TcpFlow.run (notes_read ∷ marks_closed ∷ []) (
          mark_failed
            (text "reset")
            (TcpFlow.run (configures ∷ marks_connected ∷ []) default_flow))).phase
        ≡ TcpFlow.failed)
    × ((TcpFlow.run (notes_read ∷ marks_closed ∷ []) (
          mark_failed
            (text "reset")
            (TcpFlow.run (configures ∷ marks_connected ∷ []) default_flow))).failure_message
        ≡ some (text "reset"))
failure_is_kept_example =
    failure_is_kept (configures ∷ marks_connected ∷ []) (text "reset")
      (notes_read ∷ marks_closed ∷ []) (reads, (closes, tt))

abbrev tcp_steps : List Tcp.TcpStep
tcp_steps =
    Tcp.sets_bind_address (text "0.0.0.0")
    ∷ Tcp.sets_target (text "a:1") (text "a") 1
    ∷ Tcp.marks_mqtt_attached
    ∷ []

run-TcpFits_example :
    Tcp.TcpFits
      (Tcp.run tcp_steps Tcp.default_socket).phase
      (Tcp.run tcp_steps Tcp.default_socket).core
run-TcpFits_example = run-TcpFits tcp_steps

abbrev tls_steps : List Steps.TlsStep
tls_steps =
    Steps.observes_target (text "https") (some (text "a"))
    ∷ Steps.notes_handshake_prepared
    ∷ Steps.marks_handshake_complete none
    ∷ []

run-IsCoherent_example :
    IsCoherent (Steps.run tls_steps Tls.default_flow)
    × IsCoherent
        (Steps.run tls_steps (for_downstream_request (text "https") (some (text "a")) (text "2")))
    × IsCoherent (Steps.run tls_steps for_dynamic_socket)
run-IsCoherent_example = run-IsCoherent tls_steps (text "https") (some (text "a")) (text "2")

closing_example :
    (Handshake.mark_closed (Handshake.mark_failed Tls.default_flow)
      ≡ Handshake.mark_failed Tls.default_flow)
    × (Handshake.mark_closed (Handshake.mark_closed Tls.default_flow)
        ≡ Handshake.mark_closed Tls.default_flow)
    × ((Handshake.mark_closed (Steps.run tls_steps Tls.default_flow)).plaintext_ready ≡ false)
closing_example = closing Tls.default_flow tls_steps

-- Two flows to the host "a", one of which has a peer name.
abbrev here : TlsFlowState
here = record Tls.default_flow { present = true; desired_alpn = text "h2" ∷ [] }

abbrev there : TlsFlowState
there = record here { peer_name = some (text "a") }

abbrev key : TlsSessionCacheKey
key = record {
  origin = text "https://a:443";
  desired_alpn = text "h2" ∷ [];
  verify_peer = true;
  verify_hostname = true;
  sni_enabled = true;
  trusted_certificate_fingerprint = none;
  client_certificate_fingerprint = none;
  client_private_key_fingerprint = none;
  min_version = none;
  max_version = none;
}

tls_session_cache_key-here :
    tls_session_cache_key (λ t. some t) (λ _. 0) (text "https") (text "A") 443 here ≡ some key
unfolding tls_session_cache_key key_of tls_session_origin normalize_authority_host trim_brackets
    trim_start trim_end is_bracket decimal fingerprint_optional_pem lowercase_byte
tls_session_cache_key-here = refl

tls_session_cache_key-there :
    tls_session_cache_key (λ t. some t) (λ _. 0) (text "HTTPS") (text "[a]") 443 there ≡ some key
unfolding tls_session_cache_key key_of tls_session_origin normalize_authority_host trim_brackets
    trim_start trim_end is_bracket decimal fingerprint_optional_pem lowercase_byte
tls_session_cache_key-there = refl

same_key_example :
    (here.present ≡ true)
    × (there.present ≡ true)
    × (requires_custom_client here ≡ requires_custom_client there)
    × (accepts_negotiated_alpn (some (text "h2")) here
        ≡ accepts_negotiated_alpn (some (text "h2")) there)
same_key_example =
    same_key (λ t. some t) (λ _. 0) (text "https") (text "A") (text "HTTPS") (text "[a]") 443 443
      here there key (some (text "h2")) tls_session_cache_key-here tls_session_cache_key-there
