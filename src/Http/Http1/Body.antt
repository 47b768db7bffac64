-- ===== src/Http/Http1/Body.antt =====
-- http1_fast_path.rs: `FastHttp1RequestBodyState`, which reads the body of a request piece by piece,
-- and the lease that takes the connection back. The buffer for writing is left out.
pub mod Cases
pub mod Weight
pub mod Termination
pub mod Runs
pub mod Grammar
pub mod Data
pub mod Delivery
pub mod Errors
pub mod Budget
use pd_edge.Common.{
  inl, inr, ℕ, zero, suc, ◌+◌, ◌-◌, ◌*◌, List, [], ◌∷◌, ◌++◌, Option, none, some, ltb, ◌==◌,
  if◌then◌else◌, length, take, drop,
}
use Prim.Native.Nat.{min}
use pd_edge.Common.Bytes.{Text, text_eq}
use pd_edge.Http.Http1.ChunkSize.{
  Reason, chunk_size, closed_before_content_length, closed_before_chunk_size,
  closed_before_chunk_data, closed_before_chunk_terminator, invalid_chunk_terminator,
  closed_before_trailers,
}
use pd_edge.Http.Http1.Lines.{
  Read, arrives, breaks, ReadOutcome, found, closed, broken, read_line, ensure_buffered_bytes,
}

-- Why there is no byte to be had: the connection or its stream was taken, or a read failed.
pub data IoError : Type 0 where
  unavailable detached failed : IoError

pub data FastHttp1ReadError : Type 0 where
  io : IoError → FastHttp1ReadError
  bad_request : Reason → FastHttp1ReadError
  payload_too_large : FastHttp1ReadError

pub record FastHttp1ConnectionIo : Type 0 where
  pub stream : Option (List Read)
  pub buffered : Text

pub data FastHttp1ChunkedState : Type 0 where
  need_size : FastHttp1ChunkedState
  read_data : ℕ → FastHttp1ChunkedState
  expect_chunk_terminator read_trailers : FastHttp1ChunkedState

pub data FastHttp1StreamingBodyKind : Type 0 where
  fixed : ℕ → FastHttp1StreamingBodyKind
  chunked : FastHttp1ChunkedState → FastHttp1StreamingBodyKind

pub record FastHttp1RequestBodyState : Type 0 where
  pub connection : Option FastHttp1ConnectionIo
  pub kind : FastHttp1StreamingBodyKind
  pub remaining_budget : ℕ
  pub terminal_error : Option FastHttp1ReadError

unfoldable pub from_connection :
    FastHttp1ConnectionIo → FastHttp1StreamingBodyKind → ℕ → FastHttp1RequestBodyState
from_connection connection kind remaining_budget = record {
  connection = some connection;
  kind = kind;
  remaining_budget = remaining_budget;
  terminal_error = none;
}

-- One turn of the loop of `pull_next`: on to the next one, or `Ok(Some(chunk))`, `Ok(None)`, `Err`.
pub data Turn : Type 0 where
  continues : FastHttp1RequestBodyState → Turn
  gives : Text → FastHttp1RequestBodyState → Turn
  ends : FastHttp1RequestBodyState → Turn
  fails : FastHttp1ReadError → FastHttp1RequestBodyState → Turn

-- `Err(self.remember_error(err))`
unfoldable pub remember_error : FastHttp1ReadError → FastHttp1RequestBodyState → Turn
remember_error error s = fails error (record s { terminal_error = some error })

abbrev pub with_connection : FastHttp1RequestBodyState → (FastHttp1ConnectionIo → Turn) → Turn
with_connection s next = elim s.connection [
  | none ↦ fails (io unavailable) s
  | some connection ↦ next connection
]

-- `connection_mut()?.parts_mut()?`
abbrev pub with_parts : FastHttp1RequestBodyState → (List Read → Text → Turn) → Turn
with_parts s next = with_connection s (λ connection. elim connection.stream [
  | none ↦ fails (io detached) s
  | some incoming ↦ next incoming connection.buffered
])

abbrev pub set_parts : List Read → Text → FastHttp1RequestBodyState → FastHttp1RequestBodyState
set_parts incoming buffered s = record s {
  connection = some (record { stream = some incoming; buffered = buffered });
}

abbrev pub set_kind :
    FastHttp1StreamingBodyKind → FastHttp1RequestBodyState → FastHttp1RequestBodyState
set_kind kind s = record s { kind = kind }

-- What `stream.read_buf(buffered)` adds to the buffer; the kind is put back if it is anything.
unfoldable pub read_more :
    FastHttp1StreamingBodyKind → Reason → FastHttp1RequestBodyState → List Read → Text → Turn
read_more kind reason s [] buffered = remember_error (bad_request reason) s
read_more kind reason s (breaks ∷ incoming) buffered =
    fails (io failed) (set_parts incoming buffered s)
read_more kind reason s (arrives b bs ∷ incoming) buffered =
    continues (set_kind kind (set_parts incoming (buffered ++ (b ∷ bs)) s))

-- The part of a fixed body or of a chunk that is there, `left` being what is due; `kind_at` is the
-- kind at what is left.
unfoldable pub take_data :
    (ℕ → FastHttp1StreamingBodyKind) → Reason → ℕ → FastHttp1RequestBodyState → Turn
take_data kind_at reason left s = with_connection s (λ connection.
    let available = length connection.buffered in
    let taken = min available left in
    if available == 0
    then with_parts s (read_more (kind_at left) reason s)
    else gives (take taken connection.buffered) (
        set_kind (kind_at (left - taken)) (record s {
          connection = some (record connection { buffered = drop taken connection.buffered });
        })))

unfoldable pub after_data : ℕ → FastHttp1StreamingBodyKind
after_data remaining =
    chunked (if remaining == 0 then expect_chunk_terminator else read_data remaining)

-- A chunk of `size` bytes is due.
unfoldable pub start_chunk : ℕ → FastHttp1RequestBodyState → Turn
start_chunk size s =
    if size == 0
    then continues (set_kind (chunked read_trailers) s)
    else if ltb s.remaining_budget size
    then fails payload_too_large s
    else continues
        (record s { remaining_budget = s.remaining_budget - size; kind = chunked (read_data size) })

unfoldable pub on_size_line : Text → FastHttp1RequestBodyState → Turn
on_size_line line s = elim (chunk_size line) [
  | inr size ↦ start_chunk size s
  | inl reason ↦ remember_error (bad_request reason) s
]

unfoldable pub on_terminator : Text → FastHttp1RequestBodyState → Turn
on_terminator bytes s =
    if text_eq bytes (13 ∷ 10 ∷ [])
    then continues (set_kind (chunked need_size) s)
    else remember_error (bad_request invalid_chunk_terminator) s

unfoldable pub on_trailer : Text → FastHttp1RequestBodyState → Turn
on_trailer [] s = ends s
on_trailer (b ∷ bs) s = continues (set_kind (chunked read_trailers) s)

-- What was read is dealt with by `next`; the end of the stream is a bad request.
unfoldable pub after_read :
    Reason
    → (Text → FastHttp1RequestBodyState → Turn)
    → FastHttp1RequestBodyState
    → ReadOutcome Text
    → Turn
after_read reason next s (found bytes incoming buffered) =
    next bytes (set_parts incoming buffered s)
after_read reason next s (closed buffered) =
    remember_error (bad_request reason) (set_parts [] buffered s)
after_read reason next s (broken incoming buffered) =
    fails (io failed) (set_parts incoming buffered s)

unfoldable pub on_kind : FastHttp1StreamingBodyKind → FastHttp1RequestBodyState → Turn
on_kind (fixed zero) s = ends s
on_kind (fixed (suc left)) s = take_data fixed closed_before_content_length (suc left) s
on_kind (chunked need_size) s = with_parts s (λ incoming buffered.
    after_read closed_before_chunk_size on_size_line s (read_line incoming buffered))
on_kind (chunked (read_data zero)) s = continues (set_kind (chunked expect_chunk_terminator) s)
on_kind (chunked (read_data (suc left))) s =
    take_data after_data closed_before_chunk_data (suc left) s
on_kind (chunked expect_chunk_terminator) s = with_parts s (λ incoming buffered.
    after_read closed_before_chunk_terminator on_terminator s
      (ensure_buffered_bytes 2 incoming buffered))
on_kind (chunked read_trailers) s = with_parts s (λ incoming buffered.
    after_read closed_before_trailers on_trailer s (read_line incoming buffered))

-- `std::mem::replace` leaves a fixed body without a byte in the kind's place.
unfoldable pub turn : FastHttp1RequestBodyState → Turn
turn s = on_kind s.kind (set_kind (fixed 0) s)

-- The result of a call: a chunk, the end of the body, or an error.
pub data Pulled : Type 0 where
  chunk : Text → Pulled
  end_of_body : Pulled
  failure : FastHttp1ReadError → Pulled

-- What a turn leads to, `again` being the next turn.
unfoldable pub settle :
    Turn
    → (FastHttp1RequestBodyState → Option (Pulled × FastHttp1RequestBodyState))
    → Option (Pulled × FastHttp1RequestBodyState)
settle (continues t) again = again t
settle (gives bytes t) again = some (chunk bytes, t)
settle (ends t) again = some (end_of_body, t)
settle (fails error t) again = some (failure error, t)

-- The `loop`, of at most `fuel` turns.
unfoldable pub pull_loop :
    ℕ → FastHttp1RequestBodyState → Option (Pulled × FastHttp1RequestBodyState)
pull_loop zero s = none
pull_loop (suc fuel) s = settle (turn s) (pull_loop fuel)

-- How much there is to read: twice the bytes in the buffer and to come, and twice the reads to come.
unfoldable pub reads_weight : List Read → ℕ
reads_weight [] = 0
reads_weight (arrives b bs ∷ incoming) = 2 * (2 + length bs) + reads_weight incoming
reads_weight (breaks ∷ incoming) = 2 + reads_weight incoming

unfoldable pub stream_weight : Option (List Read) → ℕ
stream_weight none = 0
stream_weight (some incoming) = reads_weight incoming

unfoldable pub connection_weight : Option FastHttp1ConnectionIo → ℕ
connection_weight none = 0
connection_weight (some connection) =
    2 * length connection.buffered + stream_weight connection.stream

unfoldable pub kind_weight : FastHttp1StreamingBodyKind → ℕ
kind_weight (fixed left) = 0
kind_weight (chunked need_size) = 0
kind_weight (chunked (read_data left)) = 1
kind_weight (chunked expect_chunk_terminator) = 0
kind_weight (chunked read_trailers) = 0

-- As many turns as a call takes at most, one less.
unfoldable pub weight : FastHttp1RequestBodyState → ℕ
weight s = connection_weight s.connection + kind_weight s.kind

unfoldable pub pull_next : FastHttp1RequestBodyState → Option (Pulled × FastHttp1RequestBodyState)
pull_next s = elim s.terminal_error [
  | some error ↦ some (failure error, s)
  | none ↦ pull_loop (suc (weight s)) s
]

-- The body that the calls of `pull_next` deliver, how they end, and what they leave: what the body's
-- stream yields, and what `drain_remaining` goes through.
abbrev pub Drained : Type 0
Drained = Text × Option FastHttp1ReadError × FastHttp1RequestBodyState

unfoldable pub prepend : Text → Option Drained → Option Drained
prepend bytes none = none
prepend bytes (some (body, error, s)) = some (bytes ++ body, error, s)

unfoldable pub after_pull :
    Option (Pulled × FastHttp1RequestBodyState)
    → (FastHttp1RequestBodyState → Option Drained)
    → Option Drained
after_pull none again = none
after_pull (some (chunk bytes, t)) again = prepend bytes (again t)
after_pull (some (end_of_body, t)) again = some ([], none, t)
after_pull (some (failure error, t)) again = some ([], some error, t)

unfoldable pub drain_loop : ℕ → FastHttp1RequestBodyState → Option Drained
drain_loop zero s = none
drain_loop (suc fuel) s = after_pull (pull_next s) (drain_loop fuel)

unfoldable pub drain_remaining : FastHttp1RequestBodyState → Option Drained
drain_remaining s = drain_loop (suc (weight s)) s

unfoldable pub take_connection :
    FastHttp1RequestBodyState → Option FastHttp1ConnectionIo × FastHttp1RequestBodyState
take_connection s = (s.connection, record s { connection = none })

unfoldable pub taken_back :
    Option FastHttp1ReadError
    → Option FastHttp1ConnectionIo
    → Option FastHttp1ReadError × FastHttp1ConnectionIo
taken_back error none = (some (io unavailable), record { stream = none; buffered = [] })
taken_back error (some connection) = (error, connection)

-- The lease's `finish`: the connection, with the error of the draining if there is one.
unfoldable pub finish :
    FastHttp1RequestBodyState → Option (Option FastHttp1ReadError × FastHttp1ConnectionIo)
finish s = elim (drain_remaining s) [
  | none ↦ none
  | some (body, error, t) ↦ some (taken_back error (take_connection t).0)
]
