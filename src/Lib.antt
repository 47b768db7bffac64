-- ===== src/Lib.antt =====
-- pd-edge: a programmable edge proxy whose programs call host functions for HTTP, MQTT, TLS and raw
-- transport. This library models the parts of it that hold state of their own, as pure functions on
-- records, and proves what they promise.
--
-- The parts and their files (paths from the repository's root):
--   src/abi_impl/mqtt/codec.rs: the MQTT 5 wire format. Mqtt/Codec/VarInt is the variable-length
--     integer, Fields the length-prefixed fields, Encode the packets that the client writes, Decode the
--     decoder of the packets that it reads. A slice, an index and an error are explicit: `Outcome` has
--     `ok`, `err` and `panic`. Safety, Streaming and RoundTrip hold the theorems.
--   src/abi_impl/mqtt/model.rs: one MQTT connection. Mqtt/Session has the record and a function for each
--     method that changes it; Run, PacketIds and KeepAlive hold the theorems. The clock and the UUID of
--     a client id are arguments.
--   src/abi_impl/mqtt/upstream.rs: how the client reads the next packet. Mqtt/Client has the loop over a
--     script of what the clock and the carrier do in each turn; Client/Reading and Client/Silence hold the
--     theorems. Client/Waiting has the waits for acknowledgements, with Queue, Handling, Verdicts and
--     Answered for what they do with the packets that come first and how they end.
--   src/runtime/http_plane/http1_fast_path.rs: the fast path of HTTP/1. Http/Http1/Lines reads lines and
--     counted bytes from a connection, ChunkSize and Hex are the sizes of chunks, Body is
--     FastHttp1RequestBodyState: `turn` is one turn of the loop of pull_next, drain_remaining goes on to
--     the end, and finish gives the connection back. Body/Grammar says what a body is; Delivery,
--     Termination, Errors and Budget hold the theorems, Cases, Weight, Data and Runs what they rest on.
--     Writer and Writer/Response are write_http1_response, Writer/RoundTrip and Writer/Framing its
--     theorems.
--   src/abi_impl/http/outbound_http1.rs: of this file, send_request_body, in Http/Http1/Writer.
--   src/abi_impl/http/state/body_io.rs: BufferedByteStream over the frames of a request's body, in
--     Http/ByteStream. ByteStream/Pulling is what its loops do, Refines, Pieces and Lines what each read
--     answers, Run and Cuts hold the theorems.
--   src/abi_impl/http2/model.rs: the frontiers and modes, in Http/Http2/Model.
--   src/abi_impl/http2/upstream.rs: Http2UpstreamSessionDagState and the methods of Http2UpstreamSession,
--     in Http/Http2/Session. Session/Run has their runs, Drains, Shut, Ids and Progress the theorems,
--     Streams what they rest on. The map of streams is an association list.
--   src/abi_impl/http/version.rs: HttpVersionPreference, in Http/Version.
--   src/abi_impl/http3/model.rs: the choice of a mode, in Http/Http3; Http3/Choice compares it with the
--     one for HTTP/2.
--   src/abi_impl/websocket/state.rs: WebSocketConnectionState and its methods, in Http/WebSocket, with
--     WebSocket/Reading for the reads of OutboundWebSocketIoState over a script of messages and Coherent
--     for the invariant.
--   src/cache.rs: the bounded LRU store and its sharded form. Cache/Lru has the operations on the hash
--     map and the queue of keys, Lru/Model the list of entries that they promise, Refines, Operations,
--     Retain and Run the refinement. Cache/Sharded has the shards; an access under a lock is a step, and
--     what other threads do between two locks is an argument. Hash maps are association lists.
--   src/abi_impl/transport/state.rs: the state of connections. Transport/Handles are the reserved
--     handles, TcpFlow a TCP flow, Sockets the TCP and UDP sockets with their addresses, Tls a TLS
--     flow: Types, Tls (construction and targets), Tls/Handshake (configuration and handshake),
--     Tls/Clients and Tls/Keys (the keys of the session caches). Replay is the stream that reads bytes
--     again that were read before.
-- The MQTT client reads packets with the codec and keeps a connection's state; its TLS sessions are
-- kept in sharded stores under the keys of Transport/Tls/Keys.
--
-- Shared by all: Common (lists and tests over the native numbers, outcomes, bytes, integers). Tests
-- applies each theorem to a concrete input.
--
-- Bounds and fuel: text is a list of bytes. The decoder of a variable-length integer looks at four
-- bytes, as the source does; its encoder is a loop by well-founded recursion on the value, so it needs
-- no fuel. The loops of pull_next and drain_remaining run on fuel: the bytes and reads that are left
-- bound their turns, so more fuel changes nothing. A port has at most five decimal digits, which is how many are written. Numbers that the
-- source keeps in 16 bits are bounded by hypotheses where a theorem needs it.
--
-- Parameters: the host of an authority (`http::uri::Authority`), the hash of a certificate, the hash of
-- a key, the decision of equality on keys, the clock, what a carrier reads and writes, and the http crate's header
-- map (with the laws of `get_all` and `insert`) and reason phrases. What a connection delivers is a list
-- of reads.
--
-- Not modelled: input and output, locks' metrics, labels for logs, the VM and its values, and the
-- other parts of the proxy (the rest of HTTP and WebSocket, WebRTC, QUIC, the control plane, the binaries).
pub mod Common
pub mod Cache
pub mod Http
pub mod Mqtt
pub mod Transport
pub mod Tests
