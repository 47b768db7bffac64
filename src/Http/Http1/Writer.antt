-- ===== src/Http/Http1/Writer.antt =====
-- http1_fast_path.rs: `write_http1_response`, which writes a response to a downstream connection, and
-- src/abi_impl/http/outbound_http1.rs: `send_request_body`, which writes a request's body to an
-- upstream one. Header maps are lists of names in lower case and values, in the order of iteration; the
-- reason phrases of the statuses are an argument. What is written is a text: a write that fails ends
-- either function with the connection's error, behind a part of that text.
pub mod RoundTrip
pub mod Response
pub mod Framing
use pd_edge.Common.{
  ℕ, ◌+◌, ◌-◌, ◌/◌, ◌%◌, List, [], ◌∷◌, ◌++◌, Option, none, some, Bool, true, false, not, ◌&&◌,
  ◌||◌, ltb, leb, ◌==◌, if◌then◌else◌, length, is_empty,
}
use pd_edge.Common.Bytes.{Text, text, text_eq, lowercase}
use pd_edge.Common.Whitespace.{trim}
use pd_edge.Http.Http1.Hex.{append_chunk_prefix}

abbrev pub crlf : Text
crlf = 13 ∷ 10 ∷ []

-- The names, in lower case, and the values of header fields.
abbrev pub Fields : Type 0
Fields = List (Text × Text)

pub data Version : Type 0 where
  http_09 http_10 http_11 http_2 http_3 : Version

unfoldable pub is_http_10 : Version → Bool
is_http_10 http_10 = true
is_http_10 _ = false

-- `split(',')`, `part` being what was read of the part so far.
unfoldable pub split_commas : Text → Text → List Text
split_commas part [] = part ∷ []
split_commas part (b ∷ bs) =
    if b == 44 then part ∷ split_commas [] bs else split_commas (part ++ (b ∷ [])) bs

-- `HeaderValue::to_str(..).is_ok()`
unfoldable pub is_visible : Text → Bool
is_visible [] = true
is_visible (b ∷ bs) = (leb 32 b && leb b 126 || b == 9) && is_visible bs

unfoldable pub any_token : Text → List Text → Bool
any_token token [] = false
any_token token (part ∷ parts) =
    text_eq (lowercase (trim part)) (lowercase token) || any_token token parts

unfoldable pub response_has_no_body : ℕ → Text → Bool
response_has_no_body status method =
    text_eq method (text "HEAD")
    || leb 100 status && ltb status 200
    || status == 204
    || status == 304

-- A frame of the response's body, or its error.
pub data Frame : Type 0 where
  data_frame : Text → Frame
  trailers_frame : Fields → Frame
  other_frame broken_frame : Frame

unfoldable pub write_fields : Fields → Text
write_fields [] = []
write_fields ((name, value) ∷ headers) =
    name ++ (text ": " ++ (value ++ (crlf ++ write_fields headers)))

unfoldable pub write_data : Bool → Text → Text
write_data use_chunked bytes =
    if use_chunked then append_chunk_prefix (length bytes) ++ (bytes ++ crlf) else bytes

unfoldable pub write_end : Bool → Fields → Text
write_end use_chunked trailers =
    if use_chunked then text "0" ++ (crlf ++ (write_fields trailers ++ crlf)) else []

-- What is written, and `Ok(keep_alive)` or an error of the body.
pub record Written : Type 0 where
  pub bytes : Text
  pub keep_alive : Option Bool

abbrev pub written_first : Text → Written → Written
written_first bytes w = record w { bytes = bytes ++ w.bytes }

unfoldable pub write_body : Bool → Bool → Fields → List Frame → Written
write_body use_chunked keep_alive trailers [] = record {
  bytes = write_end use_chunked trailers;
  keep_alive = some keep_alive;
}
write_body use_chunked keep_alive trailers (data_frame bytes ∷ frames) =
    written_first (write_data use_chunked bytes) (write_body use_chunked keep_alive trailers frames)
write_body use_chunked keep_alive trailers (trailers_frame fields ∷ frames) =
    write_body use_chunked keep_alive fields frames
write_body use_chunked keep_alive trailers (other_frame ∷ frames) =
    write_body use_chunked false trailers frames
write_body use_chunked keep_alive trailers (broken_frame ∷ frames) = record {
  bytes = [];
  keep_alive = none;
}

-- Three decimal digits.
unfoldable pub status_text : ℕ → Text
status_text status = (48 + status / 100) ∷ (48 + status / 10 % 10) ∷ (48 + status % 10) ∷ []

-- The body of a request to an upstream: the items of a stream, or an error of it.
pub data StreamItem : Type 0 where
  item : Text → StreamItem
  broken_item : StreamItem

pub data OutboundHttp1RequestBody : Type 0 where
  empty_body : OutboundHttp1RequestBody
  bytes_body : Text → OutboundHttp1RequestBody
  streaming_body : Option ℕ → List StreamItem → OutboundHttp1RequestBody

pub data SendError : Type 0 where
  stream_failed exceeded_content_length ended_before_content_length : SendError

-- What is left of the declared length after a chunk, or `none` if the chunk is longer.
unfoldable pub declared_left : Option ℕ → ℕ → Option (Option ℕ)
declared_left none len = some none
declared_left (some remaining) len =
    if ltb remaining len then none else some (some (remaining - len))

unfoldable pub end_stream : Bool → Option ℕ → Text × Option SendError
end_stream use_chunked none = (if use_chunked then text "0" ++ (crlf ++ crlf) else [], none)
end_stream use_chunked (some remaining) =
    if remaining == 0
    then (if use_chunked then text "0" ++ (crlf ++ crlf) else [], none)
    else ([], some ended_before_content_length)

unfoldable pub send_stream : Bool → Option ℕ → List StreamItem → Text × Option SendError
send_stream use_chunked remaining [] = end_stream use_chunked remaining
send_stream use_chunked remaining (broken_item ∷ items) = ([], some stream_failed)
send_stream use_chunked remaining (item [] ∷ items) = send_stream use_chunked remaining items
send_stream use_chunked remaining (item (b ∷ bs) ∷ items) =
    elim (declared_left remaining (length (b ∷ bs))) [
      | none ↦ ([], some exceeded_content_length)
      | some left ↦
          let (later, error) = send_stream use_chunked left items in
          (write_data use_chunked (b ∷ bs) ++ later, error)
    ]

unfoldable pub send_request_body : OutboundHttp1RequestBody → Bool → Text × Option SendError
send_request_body empty_body use_chunked = ([], none)
send_request_body (bytes_body bytes) use_chunked = (bytes, none)
send_request_body (streaming_body content_length stream) use_chunked =
    send_stream use_chunked content_length stream
