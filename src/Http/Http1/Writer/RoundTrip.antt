-- ===== src/Http/Http1/Writer/RoundTrip.antt =====
-- http1_fast_path.rs and outbound_http1.rs: what is written in chunks is a body that the reader takes
-- whole.
use pd_edge.Common.{
  append_assoc, ℕ, ◌-◌, ◌<◌, ◌≤◌, List, [], ◌∷◌, ◌++◌, none, some, Bool, true, false, length, ◌≡◌,
  refl, sym, ap, ◌∙◌, arith, All, length-append, map,
}
use mathlib.Core.Path.{subst}
use pd_edge.Common.Bytes.{Text, text}
use pd_edge.Http.Http1.Hex.{usize_values, append_chunk_prefix}
use pd_edge.Http.Http1.ChunkSize.Digits.{
  size_digits, chunk_size_zero, size_digits-IsDigit, no_cr_in_digits, chunk_size-size_digits,
}
use pd_edge.Http.Http1.Lines.{Read, find_crlf}
use pd_edge.Http.Http1.Lines.Reading.{joined, IsWhole, IsNotCr, find_crlf_first}
use pd_edge.Http.Http1.Body.{
  FastHttp1RequestBodyState, chunked, need_size, read_trailers, drain_remaining,
}
use pd_edge.Http.Http1.Body.Data.{reading, Leaves}
use pd_edge.Http.Http1.Body.Grammar.{
  IsLine, IsBody, chunk_line, chunk_data, terminator, last_chunk_line, trailer, blank_line,
}
use pd_edge.Http.Http1.Body.Delivery.{drain_remaining-IsBody}
use pd_edge.Http.Http1.Writer.{
  crlf, Fields, write_fields, write_data, write_end, Frame, data_frame, trailers_frame, other_frame,
  broken_frame, write_body, item, streaming_body, declared_left, end_stream, send_stream,
  send_request_body,
}

written-IsLine :
    (line more : Text) {input : Text}
    → input ≡ line ++ (13 ∷ 10 ∷ more)
    → All IsNotCr line
    → IsLine line more input
written-IsLine line more e h = (e, ap find_crlf e ∙ find_crlf_first line more h)

data_shape :
    (bytes more : Text)
    → write_data true bytes ++ more
      ≡ size_digits (length bytes) ++ (13 ∷ 10 ∷ (bytes ++ (13 ∷ 10 ∷ more)))
unfolding write_data append_chunk_prefix
data_shape bytes more =
    append_assoc (size_digits (length bytes) ++ crlf) (bytes ++ crlf) more
    ∙ append_assoc (size_digits (length bytes)) crlf ((bytes ++ crlf) ++ more)
    ∙ ap (λ z. size_digits (length bytes) ++ (13 ∷ 10 ∷ z)) (append_assoc bytes crlf more)

-- A written chunk in front of a body.
written_chunk :
    {budget : ℕ} {body rest : Text} (bytes more : Text)
    → 0 < length bytes
    → length bytes ≤ budget
    → budget < usize_values
    → IsBody (chunked need_size) (budget - length bytes) more body rest
    → IsBody (chunked need_size) budget (write_data true bytes ++ more) (bytes ++ body) rest
written_chunk bytes more positive fits small b =
    chunk_line (size_digits (length bytes)) (bytes ++ (13 ∷ 10 ∷ more))
      (written-IsLine (size_digits (length bytes)) (bytes ++ (13 ∷ 10 ∷ more))
        (data_shape bytes more)
        (no_cr_in_digits (size_digits (length bytes)) (size_digits-IsDigit (length bytes))))
      (chunk_size-size_digits (length bytes) (omega arith)) positive fits
      (chunk_data bytes (13 ∷ 10 ∷ more) refl refl (terminator more refl b))

-- What the http crate grants of a header field: no carriage return.
abbrev pub IsField : Text × Text → Type 0
IsField (name, value) = All IsNotCr name × All IsNotCr value

append_assoc3 : (a b c d : Text) → ((a ++ b) ++ c) ++ d ≡ a ++ ((b ++ c) ++ d)
append_assoc3 a b c d = ap (λ z. z ++ d) (append_assoc a b c) ∙ append_assoc a (b ++ c) d

All-append : (P : ℕ → Type 0) (xs ys : Text) → All P xs → All P ys → All P (xs ++ ys)
All-append P [] ys h k = k
All-append P (x ∷ xs) ys h k = (h.0, All-append P xs ys h.1 k)

fields_end :
    {budget : ℕ} (rest : Text) (fields : Fields)
    → All IsField fields
    → IsBody (chunked read_trailers) budget ((write_fields fields ++ crlf) ++ rest) [] rest
unfolding write_fields
fields_end rest [] h = blank_line refl
fields_end rest ((name, value) ∷ fields) ((n, v), h) =
    let line = name ++ (58 ∷ 32 ∷ value) in
    let more = (write_fields fields ++ crlf) ++ rest in
    let k = length-append name (58 ∷ 32 ∷ value) in
    trailer line more
      (written-IsLine line more
        (append_assoc3 name (58 ∷ 32 ∷ (value ++ (crlf ++ write_fields fields))) crlf rest
          ∙ ap (λ z. name ++ (58 ∷ 32 ∷ z))
              (append_assoc3 value (crlf ++ write_fields fields) crlf rest)
          ∙ sym (append_assoc name (58 ∷ 32 ∷ value) (13 ∷ 10 ∷ more)))
        (All-append IsNotCr name (58 ∷ 32 ∷ value) n (refl, (refl, v))))
      (omega (arith, k)) (fields_end rest fields h)

written_end :
    {budget : ℕ} (rest : Text) (fields : Fields)
    → All IsField fields
    → IsBody (chunked need_size) budget (write_end true fields ++ rest) [] rest
unfolding write_end
written_end rest fields h =
    let more = (write_fields fields ++ crlf) ++ rest in
    last_chunk_line (text "0") more (written-IsLine (text "0") more refl (refl, tt)) chunk_size_zero
      (fields_end rest fields h)

-- The bytes of the texts, in order.
abbrev pub flatten : List Text → Text
flatten [] = []
flatten (chunk ∷ chunks) = chunk ++ flatten chunks

sent :
    (budget : ℕ) (chunks : List Text) (rest : Text)
    → length (flatten chunks) ≤ budget
    → budget < usize_values
    → IsBody
        (chunked need_size)
        budget
        ((send_stream true none (map item chunks)).0 ++ rest)
        (flatten chunks)
        rest
unfolding send_stream end_stream declared_left write_end write_fields
sent budget [] rest fits small = written_end rest [] tt
sent budget ([] ∷ chunks) rest fits small = sent budget chunks rest fits small
sent budget ((b ∷ bs) ∷ chunks) rest fits small =
    let k = length-append (b ∷ bs) (flatten chunks) in
    let later = (send_stream true none (map item chunks)).0 in
    subst (λ z. IsBody (chunked need_size) budget z ((b ∷ bs) ++ flatten chunks) rest)
      (sym (append_assoc (write_data true (b ∷ bs)) later rest))
      (written_chunk (b ∷ bs) (later ++ rest) (omega arith) (omega (arith, k)) small
        (sent (budget - length (b ∷ bs)) chunks rest (omega (arith, k)) (omega arith)))

-- What the frames carry.
abbrev pub data_of : List Frame → Text
data_of [] = []
data_of (data_frame bytes ∷ frames) = bytes ++ data_of frames
data_of (trailers_frame fields ∷ frames) = data_of frames
data_of (other_frame ∷ frames) = data_of frames
data_of (broken_frame ∷ frames) = data_of frames

-- A frame that is written whole: data of one byte or more, or trailers.
abbrev pub IsSendable : Frame → Type 0
IsSendable (data_frame bytes) = 0 < length bytes
IsSendable (trailers_frame fields) = All IsField fields
IsSendable other_frame = Unit
IsSendable broken_frame = ⊥

written_frames :
    (budget : ℕ) (keep_alive : Bool) (trailers : Fields) (frames : List Frame) (rest : Text)
    → All IsField trailers
    → All IsSendable frames
    → length (data_of frames) ≤ budget
    → budget < usize_values
    → IsBody
        (chunked need_size)
        budget
        ((write_body true keep_alive trailers frames).bytes ++ rest)
        (data_of frames)
        rest
unfolding write_body
written_frames budget keep_alive trailers [] rest t h fits small = written_end rest trailers t
written_frames budget keep_alive trailers (data_frame bytes ∷ frames) rest t h fits small =
    let k = length-append bytes (data_of frames) in
    let later = (write_body true keep_alive trailers frames).bytes in
    subst (λ z. IsBody (chunked need_size) budget z (bytes ++ data_of frames) rest)
      (sym (append_assoc (write_data true bytes) later rest))
      (written_chunk bytes (later ++ rest) h.0 (omega (arith, k)) small (
        written_frames (budget - length bytes) keep_alive trailers frames rest t h.1
          (omega (arith, k)) (omega arith)))
written_frames budget keep_alive trailers (trailers_frame fields ∷ frames) rest t h fits small =
    written_frames budget keep_alive fields frames rest h.0 h.1 fits small
written_frames budget keep_alive trailers (other_frame ∷ frames) rest t h fits small =
    written_frames budget false trailers frames rest t h.1 fits small
written_frames budget keep_alive trailers (broken_frame ∷ frames) rest t h fits small = absurd h.0

-- The chunked body of a request that `send_request_body` writes, empty items of its stream or not, is
-- read as the bytes of the stream, however it arrives, if these are within the reader's budget; what
-- follows it stays on the connection.
pub drain_remaining-send_request_body :
    (budget : ℕ) (chunks : List Text) (rest : Text) (incoming : List Read) (buffered : Text)
    → length (flatten chunks) ≤ budget
    → budget < usize_values
    → IsWhole incoming
    → buffered ++ joined incoming
      ≡ (send_request_body (streaming_body none (map item chunks)) true).0 ++ rest
    → (u : FastHttp1RequestBodyState) × (drain_remaining
          (reading (chunked need_size) budget incoming buffered)
        ≡ some (flatten chunks, none, u))
      × Leaves rest u
unfolding send_request_body
drain_remaining-send_request_body budget chunks rest incoming buffered fits small whole e =
    drain_remaining-IsBody incoming buffered (sent budget chunks rest fits small) whole e

-- The chunked body of a response that `write_http1_response` writes, with its trailers, is read as the
-- data of its frames if each data frame has a byte and no trailer has a carriage return.
pub drain_remaining-write_body :
    (budget : ℕ) (keep_alive : Bool) (frames : List Frame) (rest : Text) (incoming : List Read)
    (buffered : Text)
    → All IsSendable frames
    → length (data_of frames) ≤ budget
    → budget < usize_values
    → IsWhole incoming
    → buffered ++ joined incoming ≡ (write_body true keep_alive [] frames).bytes ++ rest
    → (u : FastHttp1RequestBodyState) × (drain_remaining
          (reading (chunked need_size) budget incoming buffered)
        ≡ some (data_of frames, none, u))
      × Leaves rest u
drain_remaining-write_body budget keep_alive frames rest incoming buffered h fits small whole e =
    drain_remaining-IsBody incoming buffered
      (written_frames budget keep_alive [] frames rest tt h fits small) whole e
