-- ===== src/Http/ByteStream.antt =====
-- src/abi_impl/http/state/body_io.rs: `BufferedByteStream`, which buffers the frames of a body and is
-- read by pieces, by lines or whole, and `InboundRequestBodyState`, its use on the body of a request.
-- The frames that a body will yield are a list.
pub mod Pulling
pub mod Refines
pub mod Pieces
pub mod Lines
pub mod Run
pub mod Cuts
use pd_edge.Common.{
  ℕ, ◌+◌, ◌-◌, List, [], ◌∷◌, ◌++◌, Option, none, some, Bool, true, false, not, ◌&&◌, ltb, leb,
  ◌==◌, if◌then◌else◌, length, take, drop, is_empty,
}
use Prim.Native.Nat.{suc, min}
use pd_edge.Common.Bytes.{Text}

pub data BufferedByteStreamPull : Type 0 where
  chunk : Text → BufferedByteStreamPull
  skip eof_pull : BufferedByteStreamPull

pub record BufferedByteStream : Type 0 where
  pub buffered : Text
  pub read_offset : ℕ
  pub eof : Bool

-- A frame of the body: data, another frame (trailers), or an error.
pub data BodyFrame : Type 0 where
  data_frame : Text → BodyFrame
  other_frame frame_error : BodyFrame

pub record InboundRequestBodyState : Type 0 where
  pub body : Option (List BodyFrame)
  pub stream : BufferedByteStream

unfoldable pub apply_pull : BufferedByteStreamPull → BufferedByteStream → BufferedByteStream
apply_pull (chunk bytes) s = record s { buffered = s.buffered ++ bytes }
apply_pull skip s = s
apply_pull eof_pull s = record s { eof = true }

-- `Ok` or `Err`, with the state behind it.
pub data Reading (A : Type 0) : Type 0 where
  done : A → InboundRequestBodyState → Reading A
  failed : InboundRequestBodyState → Reading A

abbrev pub state_of : Option (List BodyFrame) → BufferedByteStream → InboundRequestBodyState
state_of body stream = record { body = body; stream = stream }

-- `while needs(stream) { stream.apply_pull(source.pull_next().await?) }`. Behind its last frame the
-- body is gone, and every pull is the end, which no loop goes beyond.
unfoldable pub pull_frames :
    (BufferedByteStream → Bool) → List BodyFrame → BufferedByteStream → Reading Unit
pull_frames needs [] s =
    if needs s
    then done tt (state_of none (apply_pull eof_pull s))
    else done tt (state_of (some []) s)
pull_frames needs (data_frame bytes ∷ frames) s =
    let pulled = pull_frames needs frames (apply_pull (chunk bytes) s) in
    if needs s then pulled else done tt (state_of (some (data_frame bytes ∷ frames)) s)
pull_frames needs (other_frame ∷ frames) s =
    let pulled = pull_frames needs frames (apply_pull skip s) in
    if needs s then pulled else done tt (state_of (some (other_frame ∷ frames)) s)
pull_frames needs (frame_error ∷ frames) s =
    if needs s
    then failed (state_of (some frames) s)
    else done tt (state_of (some (frame_error ∷ frames)) s)

unfoldable pub pull_body :
    (BufferedByteStream → Bool) → Option (List BodyFrame) → BufferedByteStream → Reading Unit
pull_body needs none s =
    if needs s then done tt (state_of none (apply_pull eof_pull s)) else done tt (state_of none s)
pull_body needs (some frames) s = pull_frames needs frames s

unfoldable pub pull_while : (BufferedByteStream → Bool) → InboundRequestBodyState → Reading Unit
pull_while needs s = pull_body needs s.body s.stream

unfoldable pub then_read :
    {A : Type 0} → Reading Unit → (BufferedByteStream → A × BufferedByteStream) → Reading A
then_read (done u s) read =
    let (answer, stream) = read s.stream in done answer (record s { stream = stream })
then_read (failed s) read = failed s

unfoldable pub lacks_byte : BufferedByteStream → Bool
lacks_byte s = leb (length s.buffered) s.read_offset && not s.eof

-- The offset saturates at the largest `usize`, which is no less than the length.
unfoldable pub next_chunk : ℕ → BufferedByteStream → Text × BufferedByteStream
next_chunk max_bytes s =
    let end = min (s.read_offset + max_bytes) (length s.buffered) in
    if leb (length s.buffered) s.read_offset then ([], s) else (
      take (end - s.read_offset) (drop s.read_offset s.buffered),
      record s { read_offset = end },
    )

unfoldable pub read_next_chunk : ℕ → InboundRequestBodyState → Reading Text
read_next_chunk max_bytes s = then_read (pull_while lacks_byte s) (next_chunk max_bytes)

unfoldable pub find_lf : Text → Option ℕ
find_lf [] = none
find_lf (b ∷ bs) =
    if b == 10
    then some 0
    else elim (find_lf bs) [ none ↦ none | some rel_end ↦ some (suc rel_end) ]

-- The line that a turn of the loop returns from its `start`, with the offset behind it.
unfoldable pub line_from : ℕ → BufferedByteStream → Option (Text × ℕ)
line_from start s =
    if ltb start (length s.buffered)
    then elim (find_lf (drop start s.buffered)) [
      | some rel_end ↦ some (take rel_end (drop start s.buffered), start + rel_end + 1)
      | none ↦ if s.eof then some (drop start s.buffered, length s.buffered) else none
    ]
    else if s.eof
    then some ([], s.read_offset)
    else none

unfoldable pub next_line : BufferedByteStream → Option (Text × ℕ)
next_line s = line_from (min s.read_offset (length s.buffered)) s

unfoldable pub lacks_line : BufferedByteStream → Bool
lacks_line s = elim (next_line s) [ none ↦ true | some line ↦ false ]

unfoldable pub take_line : BufferedByteStream → Text × BufferedByteStream
take_line s = elim (next_line s) [
  | none ↦ ([], s)
  | some (line, end) ↦ (line, record s { read_offset = end })
]

unfoldable pub read_next_line : InboundRequestBodyState → Reading Text
read_next_line s = then_read (pull_while lacks_line s) take_line

unfoldable pub lacks_end : BufferedByteStream → Bool
lacks_end s = not s.eof

unfoldable pub read_all : InboundRequestBodyState → Reading Text
read_all s = then_read (pull_while lacks_end s) (λ stream. (stream.buffered, stream))

unfoldable pub read_all_and_consume : InboundRequestBodyState → Reading Text
read_all_and_consume s =
    then_read (pull_while lacks_end s)
      (λ stream. (stream.buffered, record stream { read_offset = length stream.buffered }))

unfoldable pub is_drained : InboundRequestBodyState → Bool
is_drained s = s.stream.eof && leb (length s.stream.buffered) s.stream.read_offset

unfoldable pub is_pristine_unread : InboundRequestBodyState → Bool
is_pristine_unread s = is_empty s.stream.buffered && (s.stream.read_offset == 0) && not s.stream.eof

unfoldable pub eof_reached : InboundRequestBodyState → Reading Bool
eof_reached s =
    then_read (pull_while lacks_byte s)
      (λ stream. (stream.eof && leb (length stream.buffered) stream.read_offset, stream))

unfoldable pub new : List BodyFrame → InboundRequestBodyState
new frames = state_of (some frames) (record { buffered = []; read_offset = 0; eof = false })
