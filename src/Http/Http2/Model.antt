-- ===== src/Http/Http2/Model.antt =====
-- src/abi_impl/http2/model.rs: the frontiers of sessions and streams, and the mode of an upstream.
use pd_edge.Common.{
  List, [], ◌∷◌, Option, Bool, true, false, not, ◌&&◌, ◌||◌, if◌then◌else◌, is_empty,
}
use pd_edge.Common.Bytes.{Text, text, text_eq, lowercase}
use pd_edge.Http.Version.{HttpVersionPreference, auto, http1, http2, http3}

pub data Http2ControlEventSource : Type 0 where
  remote_peer local_runtime transport : Http2ControlEventSource

pub record Http2GoawayState : Type 0 where
  pub reason : Option Text
  pub source : Http2ControlEventSource

pub record Http2ResetState : Type 0 where
  pub reason : Option Text
  pub source : Http2ControlEventSource

pub data Http2UpstreamMode : Type 0 where
  disabled automatic_tls prior_knowledge : Http2UpstreamMode

pub data Http2SessionGoal : Type 0 where
  attached open_goal draining : Http2SessionGoal

pub data Http2StreamGoal : Type 0 where
  attached request_committed response_head_ready response_body_ready closed reset : Http2StreamGoal

pub data Http2SessionFrontier : Type 0 where
  candidate attachable preface_exchanged peer_settings_received : Http2SessionFrontier
  open_frontier draining closed failed : Http2SessionFrontier

pub data Http2StreamFrontier : Type 0 where
  reserved attached_to_exchange request_headers_sent request_body_open : Http2StreamFrontier
  request_committed response_head_ready response_body_ready : Http2StreamFrontier
  half_closed_local half_closed_remote closed reset : Http2StreamFrontier

unfoldable pub is_terminal_session : Http2SessionFrontier → Bool
is_terminal_session Http2SessionFrontier.closed = true
is_terminal_session Http2SessionFrontier.failed = true
is_terminal_session _ = false

unfoldable pub is_terminal : Http2StreamFrontier → Bool
is_terminal Http2StreamFrontier.closed = true
is_terminal Http2StreamFrontier.reset = true
is_terminal _ = false

pub data HttpUpstreamScheme : Type 0 where
  http https : HttpUpstreamScheme

unfoldable pub offers : Text → List Text → Bool
offers protocol [] = false
offers protocol (offered ∷ others) =
    text_eq (lowercase offered) (lowercase protocol) || offers protocol others

unfoldable pub select_automatic : HttpUpstreamScheme → Bool → Http2UpstreamMode
select_automatic https explicitly_offers_http2 = automatic_tls
select_automatic http true = prior_knowledge
select_automatic http false = disabled

-- With the feature `http2`; `desired_alpn` is that of the TLS flow.
unfoldable pub select_upstream_mode :
    HttpUpstreamScheme → List Text → HttpVersionPreference → Http2UpstreamMode
select_upstream_mode scheme desired_alpn http1 = disabled
select_upstream_mode scheme desired_alpn http3 = disabled
select_upstream_mode https desired_alpn http2 = automatic_tls
select_upstream_mode http desired_alpn http2 = prior_knowledge
select_upstream_mode scheme desired_alpn auto =
    let offers_http2 = offers (text "h2") desired_alpn in
    let prefers_http11 = offers (text "http/1.1") desired_alpn in
    if not (is_empty desired_alpn) && prefers_http11 && not offers_http2
    then disabled
    else select_automatic scheme offers_http2
