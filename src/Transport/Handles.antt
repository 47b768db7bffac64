-- ===== src/Transport/Handles.antt =====
-- state.rs: the reserved handles of the downstream and the default upstream connection.
use pd_edge.Common.{◌≡◌, ◌↔◌, Option, none, some, ◌==◌, if◌then◌else◌, arith}
use pd_edge.Common.Int.{ℤ, pos, negsuc}

abbrev pub tcp_stream_downstream : ℤ
tcp_stream_downstream = pos 0

abbrev pub tcp_stream_default_upstream : ℤ
tcp_stream_default_upstream = pos 1

abbrev pub udp_socket_downstream : ℤ
udp_socket_downstream = pos 0

abbrev pub udp_socket_default_upstream : ℤ
udp_socket_default_upstream = pos 1

pub data TcpStreamRef : Type 0 where
  downstream default_upstream : TcpStreamRef

pub data UdpSocketRef : Type 0 where
  downstream default_upstream : UdpSocketRef

pub data TlsSessionRef : Type 0 where
  downstream default_upstream : TlsSessionRef

unfoldable pub tcp_handle : TcpStreamRef → ℤ
tcp_handle TcpStreamRef.downstream = tcp_stream_downstream
tcp_handle TcpStreamRef.default_upstream = tcp_stream_default_upstream

unfoldable pub udp_handle : UdpSocketRef → ℤ
udp_handle UdpSocketRef.downstream = udp_socket_downstream
udp_handle UdpSocketRef.default_upstream = udp_socket_default_upstream

unfoldable pub tls_handle : TlsSessionRef → ℤ
tls_handle TlsSessionRef.downstream = tcp_stream_downstream
tls_handle TlsSessionRef.default_upstream = tcp_stream_default_upstream

unfoldable pub decode_tcp_stream_handle : ℤ → Option TcpStreamRef
decode_tcp_stream_handle (pos n) =
    if n == 0
    then some TcpStreamRef.downstream
    else if n == 1
    then some TcpStreamRef.default_upstream
    else none
decode_tcp_stream_handle (negsuc n) = none

unfoldable pub decode_udp_socket_handle : ℤ → Option UdpSocketRef
decode_udp_socket_handle (pos n) =
    if n == 0
    then some UdpSocketRef.downstream
    else if n == 1
    then some UdpSocketRef.default_upstream
    else none
decode_udp_socket_handle (negsuc n) = none

unfoldable pub decode_tls_session_handle : ℤ → Option TlsSessionRef
decode_tls_session_handle (pos n) =
    if n == 0
    then some TlsSessionRef.downstream
    else if n == 1
    then some TlsSessionRef.default_upstream
    else none
decode_tls_session_handle (negsuc n) = none

decode_tcp_iff :
    (h : ℤ) (r : TcpStreamRef) → (decode_tcp_stream_handle h ≡ some r) ↔ (h ≡ tcp_handle r)
unfolding decode_tcp_stream_handle tcp_handle
decode_tcp_iff (pos n) TcpStreamRef.downstream = (λ e. ground arith, λ e. ground arith)
decode_tcp_iff (pos n) TcpStreamRef.default_upstream = (λ e. ground arith, λ e. ground arith)
decode_tcp_iff (negsuc n) TcpStreamRef.downstream = (λ e. ground arith, λ e. ground arith)
decode_tcp_iff (negsuc n) TcpStreamRef.default_upstream = (λ e. ground arith, λ e. ground arith)

decode_udp_iff :
    (h : ℤ) (r : UdpSocketRef) → (decode_udp_socket_handle h ≡ some r) ↔ (h ≡ udp_handle r)
unfolding decode_udp_socket_handle udp_handle
decode_udp_iff (pos n) UdpSocketRef.downstream = (λ e. ground arith, λ e. ground arith)
decode_udp_iff (pos n) UdpSocketRef.default_upstream = (λ e. ground arith, λ e. ground arith)
decode_udp_iff (negsuc n) UdpSocketRef.downstream = (λ e. ground arith, λ e. ground arith)
decode_udp_iff (negsuc n) UdpSocketRef.default_upstream = (λ e. ground arith, λ e. ground arith)

decode_tls_iff :
    (h : ℤ) (r : TlsSessionRef) → (decode_tls_session_handle h ≡ some r) ↔ (h ≡ tls_handle r)
unfolding decode_tls_session_handle tls_handle
decode_tls_iff (pos n) TlsSessionRef.downstream = (λ e. ground arith, λ e. ground arith)
decode_tls_iff (pos n) TlsSessionRef.default_upstream = (λ e. ground arith, λ e. ground arith)
decode_tls_iff (negsuc n) TlsSessionRef.downstream = (λ e. ground arith, λ e. ground arith)
decode_tls_iff (negsuc n) TlsSessionRef.default_upstream = (λ e. ground arith, λ e. ground arith)

-- A reserved handle decodes to the connection that has it, and every other number, negative ones
-- included, to none: for TCP streams, UDP sockets and TLS sessions alike.
reserved_handles :
    (h : ℤ) (r : TcpStreamRef) (u : UdpSocketRef) (t : TlsSessionRef)
    → ((decode_tcp_stream_handle h ≡ some r) ↔ (h ≡ tcp_handle r))
      × ((decode_udp_socket_handle h ≡ some u) ↔ (h ≡ udp_handle u))
      × ((decode_tls_session_handle h ≡ some t) ↔ (h ≡ tls_handle t))
reserved_handles h r u t = (decode_tcp_iff h r, decode_udp_iff h u, decode_tls_iff h t)
