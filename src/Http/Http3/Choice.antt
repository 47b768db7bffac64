-- ===== src/Http/Http3/Choice.antt =====
-- http2/model.rs and http3/model.rs: what the two choices of a mode say together.
use pd_edge.Common.{List, Bool, true, false, not, ◌&&◌, is_empty, if◌then◌else◌, ◌≡◌, refl}
use pd_edge.Common.Bytes.{Text, text}
use pd_edge.Http.Version.{HttpVersionPreference, auto, http1, http2, http3}
use pd_edge.Http.Http2.Model.{
  HttpUpstreamScheme, http, https, offers, select_upstream_mode, select_automatic,
  Http2UpstreamMode,
}
use pd_edge.Http.Http3.{Http3UpstreamMode, select_http3_mode, preferred_if}

-- The pairs of modes that leave a request one way to go: HTTP/3 required shuts HTTP/2 out, HTTP/3
-- preferred leaves at most HTTP/2 over TLS to fall back to.
abbrev pub is_one_way : Http3UpstreamMode → Http2UpstreamMode → Bool
is_one_way Http3UpstreamMode.disabled mode = true
is_one_way Http3UpstreamMode.preferred Http2UpstreamMode.disabled = true
is_one_way Http3UpstreamMode.preferred Http2UpstreamMode.automatic_tls = true
is_one_way Http3UpstreamMode.preferred Http2UpstreamMode.prior_knowledge = false
is_one_way Http3UpstreamMode.required Http2UpstreamMode.disabled = true
is_one_way Http3UpstreamMode.required Http2UpstreamMode.automatic_tls = false
is_one_way Http3UpstreamMode.required Http2UpstreamMode.prior_knowledge = false

over_tls :
    (offers_http3 rejects_http2 offers_http2 : Bool)
    → is_one_way
        (preferred_if offers_http3)
        (if rejects_http2 then Http2UpstreamMode.disabled else select_automatic https offers_http2)
      ≡ true
unfolding preferred_if select_automatic
over_tls true true offers_http2 = refl
over_tls true false offers_http2 = refl
over_tls false rejects_http2 offers_http2 = refl

-- Whatever the scheme, the protocols offered and the preference are, the modes chosen for HTTP/3 and for
-- HTTP/2 never compete: if HTTP/3 is required then HTTP/2 is disabled, and if it is preferred then HTTP/2
-- is disabled or negotiated over TLS.
pub modes_one_way :
    (scheme : HttpUpstreamScheme)
    → (desired_alpn : List Text) → (preference : HttpVersionPreference)
    → is_one_way
        (select_http3_mode scheme desired_alpn preference)
        (select_upstream_mode scheme desired_alpn preference)
      ≡ true
unfolding select_http3_mode select_upstream_mode
modes_one_way scheme desired_alpn http1 = refl
modes_one_way https desired_alpn http2 = refl
modes_one_way http desired_alpn http2 = refl
modes_one_way https desired_alpn http3 = refl
modes_one_way http desired_alpn http3 = refl
modes_one_way http desired_alpn auto = refl
modes_one_way https desired_alpn auto =
    over_tls (offers (text "h3") desired_alpn)
      (not (is_empty desired_alpn)
        && offers (text "http/1.1") desired_alpn
        && not (offers (text "h2") desired_alpn))
      (offers (text "h2") desired_alpn)
