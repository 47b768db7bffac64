-- ===== src/Tests/WebSocket.antt =====
-- Tests and concrete cases for websocket/state.rs.
use pd_edge.Common.{List, [], ◌∷◌, Option, none, some, true, false, ◌≡◌, refl, if◌then◌else◌}
use pd_edge.Http.Http1.Writer.{is_visible, split_commas}
use pd_edge.Common.Whitespace.{trim, trim_end, trim_start_from, space_length}
use pd_edge.Http.WebSocket.{
  default_connection, is_downstream_websocket_upgrade, visible, has_token, is_some,
  parse_subprotocols_header, trimmed_parts, for_http_request, upgrade_observed,
  OutboundWebSocketIoState,
}
use pd_edge.Http.WebSocket.Coherent.{
  Operation, handshaking, opening, closing_down, failing, preparing, run, IsConsistent,
  run-IsConsistent,
}
use pd_edge.Http.WebSocket.Reading.{
  all_clear, all_passed, is_passed, answers, Delivery, ping, pong, broken, close_message,
  data_message, text_frame, binary_frame, read_many, script, frames, all_answers, read_many-script,
  read_text, read_binary_bytes, read_error, other_kind, read_text-loses_binary,
}
use pd_edge.Common.Bytes.{Text, text, text_eq, lowercase, lowercase_byte}

abbrev upgrade_headers : Text → Option Text
upgrade_headers name =
    if text_eq name (text "connection")
    then some (text "keep-alive, Upgrade")
    else if text_eq name (text "upgrade")
    then some (text "websocket")
    else if text_eq name (text "sec-websocket-key")
    then some (text "dGhl")
    else if text_eq name (text "sec-websocket-protocol")
    then some (text "chat, superchat")
    else none

upgrade_is_seen : for_http_request upgrade_headers ≡ record default_connection {
  phase = upgrade_observed;
  present = true;
  requested_subprotocols = text "chat" ∷ text "superchat" ∷ [];
}
unfolding for_http_request is_downstream_websocket_upgrade visible text_eq is_visible has_token
    split_commas lowercase trim trim_end trim_start_from space_length lowercase_byte is_some
    parse_subprotocols_header trimmed_parts
upgrade_is_seen = refl

abbrev open_and_close : List Operation
open_and_close =
    handshaking ∷ opening 3 none ∷ closing_down ∷ failing (text "boom") ∷ preparing ∷ []

run-IsConsistent_example : IsConsistent (run open_and_close (for_http_request upgrade_headers))
run-IsConsistent_example = run-IsConsistent upgrade_headers open_and_close

abbrev live : OutboundWebSocketIoState
live = record { eof = false; close_code = none; close_reason = none }

abbrev two_frames : List Delivery
two_frames =
    record { before = ping (text "a") true ∷ pong ∷ []; frame = text_frame (text "one") }
    ∷ record {
      before = ping (text "b") true ∷ ping (text "c") true ∷ [];
      frame = binary_frame (text "two");
    }
    ∷ []

read_many-script_example :
    read_many two_frames
      (record { io = live; incoming = script two_frames (close_message none ∷ []); pongs = [] })
    ≡ (
      frames two_frames,
      record { io = live; incoming = close_message none ∷ []; pongs = all_answers two_frames [] },
    )
unfolding all_clear all_passed is_passed
read_many-script_example = read_many-script two_frames refl (close_message none ∷ []) live []

pongs_in_order : all_answers two_frames [] ≡ text "c" ∷ text "b" ∷ text "a" ∷ []
unfolding all_answers answers
pongs_in_order = refl

read_text-loses_binary_example :
    (read_text (record {
      io = live;
      incoming = pong ∷ data_message (binary_frame (text "x")) ∷ broken ∷ [];
      pongs = [];
    })
      ≡ (read_error other_kind, record { io = live; incoming = broken ∷ []; pongs = [] }))
    × (read_binary_bytes (record {
      io = live;
      incoming = pong ∷ data_message (text_frame (text "x")) ∷ broken ∷ [];
      pongs = [];
    })
        ≡ (read_error other_kind, record { io = live; incoming = broken ∷ []; pongs = [] }))
unfolding all_passed is_passed answers
read_text-loses_binary_example =
    read_text-loses_binary (pong ∷ []) refl (text "x") (broken ∷ []) live []
