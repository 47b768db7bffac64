-- ===== src/Http/WebSocket/Reading.antt =====
-- websocket/state.rs: how `read_next_frame` goes through the messages of a connection, and the reads on
-- top of it. What the stream will give is a script; its end is the end of the stream. A ping carries
-- whether the stream takes the answer.

use pd_edge.Http.WebSocket.{OutboundWebSocketIoState}
use pd_edge.Common.Bytes.{Text}
use pd_edge.Common.{
  ℕ, List, [], ◌∷◌, ◌++◌, Option, none, some, Bool, true, false, ◌&&◌, ◌≡◌, refl, arith,
}

pub data OutboundWebSocketFrame : Type 0 where
  text_frame binary_frame : Text → OutboundWebSocketFrame

pub record CloseFrame : Type 0 where
  pub code : ℕ
  pub reason : Text

pub data Message : Type 0 where
  data_message : OutboundWebSocketFrame → Message
  ping : Text → Bool → Message
  pong raw : Message
  close_message : Option CloseFrame → Message
  broken : Message

pub data FrameReadError : Type 0 where
  ping_not_answered cannot_read other_kind : FrameReadError

-- `Result<Option<T>, VmError>`
pub data FrameRead {ℓ} (A : Type ℓ) : Type ℓ where
  read_one : A → FrameRead A
  read_nothing : FrameRead A
  read_error : FrameReadError → FrameRead A

unfoldable pub record_close_frame :
    Option CloseFrame → OutboundWebSocketIoState → OutboundWebSocketIoState
record_close_frame none s = record s { eof = true }
record_close_frame (some frame) s = record s {
  eof = true;
  close_code = some frame.code;
  close_reason = some frame.reason;
}

-- A connection: its io, what is still to come, and the pongs sent, the latest first.
pub record Connection : Type 0 where
  pub io : OutboundWebSocketIoState
  pub incoming : List Message
  pub pongs : List Text

-- The loop of `read_next_frame`.
unfoldable pub read_loop :
    List Message
    → OutboundWebSocketIoState
    → List Text
    → FrameRead OutboundWebSocketFrame × Connection
read_loop [] io pongs =
    (read_nothing, record { io = record io { eof = true }; incoming = []; pongs = pongs })
read_loop (data_message frame ∷ rest) io pongs =
    (read_one frame, record { io = io; incoming = rest; pongs = pongs })
read_loop (ping payload true ∷ rest) io pongs = read_loop rest io (payload ∷ pongs)
read_loop (ping payload false ∷ rest) io pongs =
    (read_error ping_not_answered, record { io = io; incoming = rest; pongs = pongs })
read_loop (pong ∷ rest) io pongs = read_loop rest io pongs
read_loop (raw ∷ rest) io pongs = read_loop rest io pongs
read_loop (close_message frame ∷ rest) io pongs =
    (read_nothing, record { io = record_close_frame frame io; incoming = rest; pongs = pongs })
read_loop (broken ∷ rest) io pongs = (
  read_error cannot_read,
  record { io = record io { eof = true }; incoming = rest; pongs = pongs },
)

unfoldable pub read_next_frame : Connection → FrameRead OutboundWebSocketFrame × Connection
read_next_frame c = read_loop c.incoming c.io c.pongs

unfoldable pub as_text : FrameRead OutboundWebSocketFrame → FrameRead Text
as_text (read_one (text_frame value)) = read_one value
as_text (read_one (binary_frame bytes)) = read_error other_kind
as_text read_nothing = read_nothing
as_text (read_error e) = read_error e

unfoldable pub as_binary : FrameRead OutboundWebSocketFrame → FrameRead Text
as_binary (read_one (binary_frame bytes)) = read_one bytes
as_binary (read_one (text_frame value)) = read_error other_kind
as_binary read_nothing = read_nothing
as_binary (read_error e) = read_error e

unfoldable pub read_text : Connection → FrameRead Text × Connection
read_text c = let (result, after) = read_next_frame c in (as_text result, after)

unfoldable pub read_binary_bytes : Connection → FrameRead Text × Connection
read_binary_bytes c = let (result, after) = read_next_frame c in (as_binary result, after)

-- The close of our side, with whether the stream takes the frame. `CloseCode::from` keeps the code.
unfoldable pub close : ℕ → Text → Bool → OutboundWebSocketIoState → Bool × OutboundWebSocketIoState
close code reason true s =
    (true, record_close_frame (some (record { code = code; reason = reason })) s)
close code reason false s = (false, s)

-- The messages a read passes over.
unfoldable pub is_passed : Message → Bool
is_passed (ping payload taken) = taken
is_passed pong = true
is_passed raw = true
is_passed message = false

-- What the messages passed over ask to be answered, the latest first, on top of what is there.
unfoldable pub answers : List Message → List Text → List Text
answers [] pongs = pongs
answers (ping payload taken ∷ rest) pongs = answers rest (payload ∷ pongs)
answers (message ∷ rest) pongs = answers rest pongs

unfoldable pub all_passed : List Message → Bool
all_passed [] = true
all_passed (message ∷ rest) = is_passed message && all_passed rest

pub read_loop-passed :
    (skipped : List Message)
    → all_passed skipped ≡ true
    → (rest : List Message) → (io : OutboundWebSocketIoState) → (pongs : List Text)
    → read_loop (skipped ++ rest) io pongs ≡ read_loop rest io (answers skipped pongs)
unfolding read_loop answers all_passed is_passed
read_loop-passed [] e rest io pongs = refl
read_loop-passed (ping payload true ∷ more) e rest io pongs =
    read_loop-passed more e rest io (payload ∷ pongs)
read_loop-passed (ping payload false ∷ more) e rest io pongs = absurd (ground arith)
read_loop-passed (pong ∷ more) e rest io pongs = read_loop-passed more e rest io pongs
read_loop-passed (raw ∷ more) e rest io pongs = read_loop-passed more e rest io pongs
read_loop-passed (data_message frame ∷ more) e rest io pongs = absurd (ground arith)
read_loop-passed (close_message frame ∷ more) e rest io pongs = absurd (ground arith)
read_loop-passed (broken ∷ more) e rest io pongs = absurd (ground arith)

-- A frame, behind the messages a read passes over.
pub record Delivery : Type 0 where
  pub before : List Message
  pub frame : OutboundWebSocketFrame

unfoldable pub script : List Delivery → List Message → List Message
script [] rest = rest
script (d ∷ deliveries) rest = d.before ++ data_message d.frame ∷ script deliveries rest

unfoldable pub frames : List Delivery → List (FrameRead OutboundWebSocketFrame)
frames [] = []
frames (d ∷ deliveries) = read_one d.frame ∷ frames deliveries

unfoldable pub all_answers : List Delivery → List Text → List Text
all_answers [] pongs = pongs
all_answers (d ∷ deliveries) pongs = all_answers deliveries (answers d.before pongs)

unfoldable pub all_clear : List Delivery → Bool
all_clear [] = true
all_clear (d ∷ deliveries) = all_passed d.before && all_clear deliveries

-- One read for each delivery.
unfoldable pub read_many :
    List Delivery → Connection → List (FrameRead OutboundWebSocketFrame) × Connection
read_many [] c = ([], c)
read_many (d ∷ deliveries) c =
    let (result, after) = read_next_frame c in
    let (results, last) = read_many deliveries after in (result ∷ results, last)

read_next_frame-passed :
    (skipped : List Message)
    → all_passed skipped ≡ true
    → (frame : OutboundWebSocketFrame) → (rest : List Message) → (io : OutboundWebSocketIoState)
    → (pongs : List Text)
    → read_next_frame
        (record { io = io; incoming = skipped ++ data_message frame ∷ rest; pongs = pongs })
      ≡ (read_one frame, record { io = io; incoming = rest; pongs = answers skipped pongs })
unfolding read_next_frame read_loop
read_next_frame-passed skipped e frame rest io pongs =
    read_loop-passed skipped e (data_message frame ∷ rest) io pongs

-- Read one frame after another, a connection gives the data frames in the order they come, and answers
-- each ping among them once, in order; it stays before what follows the last of them.
pub read_many-script :
    (deliveries : List Delivery)
    → all_clear deliveries ≡ true
    → (rest : List Message) → (io : OutboundWebSocketIoState) → (pongs : List Text)
    → read_many deliveries (record { io = io; incoming = script deliveries rest; pongs = pongs })
      ≡ (
        frames deliveries,
        record { io = io; incoming = rest; pongs = all_answers deliveries pongs },
      )
unfolding read_many script frames all_answers all_clear
read_many-script [] e rest io pongs = refl
read_many-script (d ∷ deliveries) e rest io pongs = rw (
  read_next_frame-passed d.before (ground arith) d.frame (script deliveries rest) io pongs,
  read_many-script deliveries (ground arith) rest io (answers d.before pongs),
)

-- A frame of the other kind is an error, and it is gone: behind messages a read passes over, `read_text`
-- before a binary frame and `read_binary_bytes` before a text frame both leave a connection that goes on
-- after that frame.
pub read_text-loses_binary :
    (skipped : List Message)
    → all_passed skipped ≡ true
    → (payload : Text) → (rest : List Message) → (io : OutboundWebSocketIoState)
    → (pongs : List Text)
    → (read_text (record {
      io = io;
      incoming = skipped ++ data_message (binary_frame payload) ∷ rest;
      pongs = pongs;
    })
        ≡ (
          read_error other_kind,
          record { io = io; incoming = rest; pongs = answers skipped pongs },
        ))
      × (read_binary_bytes (record {
        io = io;
        incoming = skipped ++ data_message (text_frame payload) ∷ rest;
        pongs = pongs;
      })
          ≡ (
            read_error other_kind,
            record { io = io; incoming = rest; pongs = answers skipped pongs },
          ))
unfolding read_text read_binary_bytes as_text as_binary
read_text-loses_binary skipped e payload rest io pongs = (
  (rw (read_next_frame-passed skipped e (binary_frame payload) rest io pongs)),
  (rw (read_next_frame-passed skipped e (text_frame payload) rest io pongs)),
)
