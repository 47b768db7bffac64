-- ===== src/Http/Http3.antt =====
-- src/abi_impl/http3/model.rs: the mode of an upstream, with the feature `http3`.
pub mod Choice
use pd_edge.Common.{List, Bool, true, false}
use pd_edge.Common.Bytes.{Text, text}
use pd_edge.Http.Version.{HttpVersionPreference, auto, http1, http2, http3}
use pd_edge.Http.Http2.Model.{HttpUpstreamScheme, http, https, offers}

pub data Http3UpstreamMode : Type 0 where
  disabled preferred required : Http3UpstreamMode

-- `auto` of an upstream on `https`, which offers HTTP/3 or does not.
unfoldable pub preferred_if : Bool → Http3UpstreamMode
preferred_if true = preferred
preferred_if false = disabled

-- `desired_alpn` is that of the TLS flow.
unfoldable pub select_http3_mode :
    HttpUpstreamScheme → List Text → HttpVersionPreference → Http3UpstreamMode
select_http3_mode scheme desired_alpn http1 = disabled
select_http3_mode scheme desired_alpn http2 = disabled
select_http3_mode https desired_alpn http3 = required
select_http3_mode http desired_alpn http3 = disabled
select_http3_mode https desired_alpn auto = preferred_if (offers (text "h3") desired_alpn)
select_http3_mode http desired_alpn auto = disabled
