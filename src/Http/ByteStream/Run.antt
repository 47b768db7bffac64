-- ===== src/Http/ByteStream/Run.antt =====
-- body_io.rs: a run of reads on the body of a request, against its bytes and a position in them.
use pd_edge.Common.{arith}
use pd_edge.Common.{ℕ, List, [], ◌∷◌, Option, none, some, Bool, leb, length, ◌≡◌, refl}
use pd_edge.Common.Bytes.{Text}
use pd_edge.Http.ByteStream.{
  BodyFrame, InboundRequestBodyState, Reading, done, failed, new, read_next_chunk, read_next_line,
  read_all, read_all_and_consume, eof_reached,
}
use pd_edge.Http.ByteStream.Pulling.{joined, IsSound}
use pd_edge.Http.ByteStream.Refines.{
  IsBodyOf, Gives, read_all-Gives, read_all_and_consume-Gives, eof_reached-Gives,
}
use pd_edge.Http.ByteStream.Pieces.{IsPieceAt, read_next_chunk-Gives}
use pd_edge.Http.ByteStream.Lines.{line_at, read_next_line-Gives}

-- The methods of `InboundRequestBodyState` that read.
pub data Op : Type 0 where
  next_chunk_of : ℕ → Op
  next_line_of all_of consume_all reaches_end : Op

pub data Answer : Type 0 where
  bytes_answer : Text → Answer
  flag_answer : Bool → Answer

abbrev pub answered :
    {A : Type 0} → (A → Answer) → Reading A → Option (Answer × InboundRequestBodyState)
answered make (done a t) = some (make a, t)
answered make (failed t) = none

abbrev pub apply : Op → InboundRequestBodyState → Option (Answer × InboundRequestBodyState)
apply (next_chunk_of max_bytes) s = answered bytes_answer (read_next_chunk max_bytes s)
apply next_line_of s = answered bytes_answer (read_next_line s)
apply all_of s = answered bytes_answer (read_all s)
apply consume_all s = answered bytes_answer (read_all_and_consume s)
apply reaches_end s = answered flag_answer (eof_reached s)

-- What an operation answers, and the position behind it, of a body with these bytes at a position.
abbrev pub Promises : Text → ℕ → Op → Answer → ℕ → Type 0
Promises whole position (next_chunk_of max_bytes) (bytes_answer bytes) position' =
    IsPieceAt max_bytes whole position bytes position'
Promises whole position next_line_of (bytes_answer line) position' =
    (line, position') ≡ line_at whole position
Promises whole position all_of (bytes_answer body) position' =
    (body ≡ whole) × (position' ≡ position)
Promises whole position consume_all (bytes_answer body) position' =
    (body ≡ whole) × (position' ≡ length whole)
Promises whole position reaches_end (flag_answer end) position' =
    (end ≡ leb (length whole) position) × (position' ≡ position)
Promises whole position op answer position' = ⊥

-- The operations answer one after the other, each as promised.
pub data Reads (whole : Text) : List Op → InboundRequestBodyState → Type 0 where
  no_more : {s : InboundRequestBodyState} → Reads whole [] s
  reads :
      {op : Op} {ops : List Op} {s : InboundRequestBodyState} (answer : Answer)
      (t : InboundRequestBodyState)
      → apply op s ≡ some (answer, t)
      → Promises whole s.stream.read_offset op answer t.stream.read_offset
      → Reads whole ops t
      → Reads whole (op ∷ ops) s

answered-Gives :
    {A : Type 0} (P : A → ℕ → Type 0) (whole : Text) (make : A → Answer) (o : Reading A)
    → Gives P whole o
    → (a : A) × (t : InboundRequestBodyState) × (answered make o ≡ some (make a, t))
      × P a t.stream.read_offset
      × IsBodyOf whole t
answered-Gives P whole make (done a t) (p, b) = (a, t, refl, p, b)
answered-Gives P whole make (failed t) h = absurd h

pub answers :
    (whole : Text) (op : Op) (s : InboundRequestBodyState)
    → IsBodyOf whole s
    → (answer : Answer) × (t : InboundRequestBodyState) × (apply op s ≡ some (answer, t))
      × Promises whole s.stream.read_offset op answer t.stream.read_offset
      × IsBodyOf whole t
answers whole (next_chunk_of max_bytes) s b =
    let (a, t, e, p, c) =
      answered-Gives _ whole bytes_answer (read_next_chunk max_bytes s)
        (read_next_chunk-Gives max_bytes whole s b) in
    (bytes_answer a, t, e, p, c)
answers whole next_line_of s b =
    let (a, t, e, p, c) =
      answered-Gives _ whole bytes_answer (read_next_line s) (read_next_line-Gives whole s b) in
    (bytes_answer a, t, e, p, c)
answers whole all_of s b =
    let (a, t, e, p, c) =
      answered-Gives _ whole bytes_answer (read_all s) (read_all-Gives whole s b) in
    (bytes_answer a, t, e, p, c)
answers whole consume_all s b =
    let (a, t, e, p, c) =
      answered-Gives _ whole bytes_answer (read_all_and_consume s)
        (read_all_and_consume-Gives whole s b) in
    (bytes_answer a, t, e, p, c)
answers whole reaches_end s b =
    let (a, t, e, p, c) =
      answered-Gives _ whole flag_answer (eof_reached s) (eof_reached-Gives whole s b) in
    (flag_answer a, t, e, p, c)

run-Reads :
    (whole : Text) (ops : List Op) (s : InboundRequestBodyState)
    → IsBodyOf whole s
    → Reads whole ops s
run-Reads whole [] s b = no_more
run-Reads whole (op ∷ ops) s b =
    let (answer, t, e, p, c) = answers whole op s b in reads answer t e p (run-Reads whole ops t c)

-- Any reads on a new body whose frames come without an error succeed, and answer as the bytes of the
-- body promise at a position that the reads before them have come to: pieces in order, lines up to a
-- line feed or the end, the whole body, and whether its end is reached. Where the frames are cut, and
-- frames without data, make no difference.
pub new-Reads :
    (frames : List BodyFrame) (ops : List Op)
    → IsSound frames
    → Reads (joined frames) ops (new frames)
unfolding new
new-Reads frames ops sound =
    run-Reads (joined frames) ops (new frames) ((refl, sound, refl), omega arith)
