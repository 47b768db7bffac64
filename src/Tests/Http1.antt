-- ===== src/Tests/Http1.antt =====
-- http1_fast_path.rs: the theorems on bodies and responses, at concrete ones.
use pd_edge.Common.{
  append_nil, suc, ◌<◌, map, ℕ, ◌≡◌, refl, List, [], ◌∷◌, ◌++◌, some, none, true, arith, length,
  ◌≤◌,
}
use pd_edge.Common.Bytes.{Text, text}
use pd_edge.Http.Http1.Lines.{arrives, read_line, line_or, find_crlf, starts_with_lf}
use pd_edge.Common.Whitespace.{trim, trim_end, trim_start_from, space_length}
use pd_edge.Http.Http1.Hex.{
  from_str_radix, digits_from, hex_digit, add_digit, append_chunk_prefix, prefix_digits, digit_char,
}
use pd_edge.Http.Http1.ChunkSize.{chunk_size, size_of, before_semicolon}
use pd_edge.Common.Bytes.{is_utf8}
use pd_edge.Http.Http1.Body.{
  after_pull, take_data, prepend, read_more, after_read, on_size_line, start_chunk,
  connection_weight, stream_weight, reads_weight, kind_weight, FastHttp1RequestBodyState, fixed,
  chunked, need_size, failure, payload_too_large, end_of_body, turn, on_kind, settle, pull_loop,
  pull_next, weight, drain_loop, drain_remaining, finish,
}
use pd_edge.Http.Http1.Body.Data.{reading, Leaves}
use pd_edge.Http.Http1.Body.Grammar.{fixed_body}
use pd_edge.Http.Http1.Body.Delivery.{drain_remaining-IsBody}
use pd_edge.Http.Http1.Body.Termination.{Returns, loops_return}
use pd_edge.Http.Http1.Body.Errors.{pull_next_again}
use pd_edge.Http.Http1.Body.Budget.{allowance, drain_remaining-length}
use pd_edge.Http.Http1.Writer.{
  write_end, write_fields, send_stream, end_stream, declared_left, write_data, Frame, data_frame,
  trailers_frame, write_body, item, streaming_body, send_request_body, http_10,
}
use pd_edge.Tests.Headers.{header_lists}
use pd_edge.Http.Http1.Writer.Response.{Response, response_plan}
use pd_edge.Http.Http1.Writer.RoundTrip.{
  drain_remaining-send_request_body, drain_remaining-write_body,
}
use pd_edge.Http.Http1.Writer.Framing.{Announces, response_plan-Announces}

-- Two bytes of a body of three, and then the third with one that does not belong to it.
drain_remaining-IsBody_example :
    (u : FastHttp1RequestBodyState) × (drain_remaining
        (reading (fixed 3) 9 (arrives 7 (8 ∷ []) ∷ []) (5 ∷ 6 ∷ []))
      ≡ some (5 ∷ 6 ∷ 7 ∷ [], none, u))
    × Leaves (8 ∷ []) u
drain_remaining-IsBody_example =
    drain_remaining-IsBody (arrives 7 (8 ∷ []) ∷ []) (5 ∷ 6 ∷ [])
      (fixed_body {body = 5 ∷ 6 ∷ 7 ∷ []} {rest = 8 ∷ []} refl) tt refl

-- What is sent for three items, one of them empty.
abbrev three_items : List Text
three_items = text "ab" ∷ [] ∷ text "c" ∷ []

three_items_sent :
    text "2\r\nab\r\n1\r\nc\r\n0\r\n\r\nGET"
    ≡ (send_request_body (streaming_body none (map item three_items)) true).0 ++ text "GET"
unfolding send_request_body send_stream end_stream declared_left write_data append_chunk_prefix
    prefix_digits digit_char
three_items_sent = refl

drain_remaining-send_request_body_example :
    (u : FastHttp1RequestBodyState) × (drain_remaining (
        reading
          (chunked need_size)
          100
          (arrives 50 (text "\r\nab\r\n1\r\nc\r\n0\r\n\r\nGET") ∷ [])
          [])
      ≡ some (text "abc", none, u))
    × Leaves (text "GET") u
drain_remaining-send_request_body_example =
    drain_remaining-send_request_body 100 three_items (text "GET")
      (arrives 50 (text "\r\nab\r\n1\r\nc\r\n0\r\n\r\nGET") ∷ []) [] (omega arith) (omega arith) tt
      three_items_sent

abbrev one_frame : List Frame
one_frame = data_frame (text "abc") ∷ trailers_frame ((text "t", text "1") ∷ []) ∷ []

drain_remaining-write_body_example :
    (u : FastHttp1RequestBodyState) × (drain_remaining (
        reading
          (chunked need_size)
          100
          []
          ((write_body true true [] one_frame).bytes ++ text "GET"))
      ≡ some (text "abc", none, u))
    × Leaves (text "GET") u
drain_remaining-write_body_example =
    drain_remaining-write_body 100 true one_frame (text "GET") []
      ((write_body true true [] one_frame).bytes ++ text "GET")
      (omega arith, ((((refl, tt), (refl, tt)), tt), tt)) (omega arith) (omega arith) tt
      (append_nil ((write_body true true [] one_frame).bytes ++ text "GET"))

-- A chunk of five bytes is announced where two are allowed.
abbrev too_large : FastHttp1RequestBodyState
too_large = reading (chunked need_size) 2 [] (text "5\r\nabcde\r\n")

abbrev too_large_left : FastHttp1RequestBodyState
too_large_left = reading (fixed 0) 2 [] (text "abcde\r\n")

too_large_fails : pull_next too_large ≡ some (failure payload_too_large, too_large_left)
unfolding pull_next pull_loop settle turn on_kind after_read read_line line_or find_crlf
    starts_with_lf on_size_line chunk_size is_utf8 size_of trim trim_end trim_start_from
    before_semicolon space_length from_str_radix digits_from hex_digit add_digit start_chunk weight
    connection_weight stream_weight reads_weight kind_weight
too_large_fails = refl

pull_next_again_example : pull_next too_large_left ≡ some (end_of_body, too_large_left)
pull_next_again_example =
    pull_next_again too_large too_large_left payload_too_large refl too_large_fails

too_large_is_light : weight too_large < 40
unfolding weight connection_weight stream_weight reads_weight kind_weight
too_large_is_light = omega arith

loops_return_example :
    Returns (pull_next too_large)
    × Returns (drain_remaining too_large)
    × Returns (finish too_large)
    × (pull_loop 40 too_large ≡ pull_loop (suc (weight too_large)) too_large)
    × (drain_loop 40 too_large ≡ drain_remaining too_large)
loops_return_example = loops_return too_large 40 too_large_is_light

abbrev bare_response : Response header_lists
bare_response = record { version = http_10; status = 200; headers = []; body = [] }

response_plan-Announces_example :
    Announces header_lists
      (text "GET")
      true
      bare_response
      (response_plan header_lists (text "GET") true bare_response)
response_plan-Announces_example =
    response_plan-Announces header_lists (text "GET") true bare_response

-- A body of three bytes with four on the connection.
abbrev three_of_four : FastHttp1RequestBodyState
three_of_four = reading (fixed 3) 9 (arrives 7 (8 ∷ []) ∷ []) (5 ∷ 6 ∷ [])

three_drained :
    drain_remaining three_of_four ≡ some (5 ∷ 6 ∷ 7 ∷ [], none, reading (fixed 0) 9 [] (8 ∷ []))
unfolding drain_remaining drain_loop pull_next pull_loop settle turn on_kind weight
    connection_weight stream_weight reads_weight kind_weight after_pull take_data prepend read_more
three_drained = refl

drain_remaining-length_example : length {A = ℕ} (5 ∷ 6 ∷ 7 ∷ []) ≤ allowance three_of_four
drain_remaining-length_example =
    drain_remaining-length three_of_four (reading (fixed 0) 9 [] (8 ∷ [])) (5 ∷ 6 ∷ 7 ∷ []) none
      three_drained

-- A frame without data is written as the end of the body.
empty_frame_is_end : write_data true [] ≡ write_end true []
unfolding write_data write_end write_fields append_chunk_prefix prefix_digits digit_char
empty_frame_is_end = refl
