-- ===== src/Tests/ByteStream.antt =====
-- body_io.rs: the theorems on the body of a request, at concrete frames.
use pd_edge.Common.{List, [], ◌∷◌, ◌≡◌, refl}
use pd_edge.Common.Bytes.{text}
use pd_edge.Http.ByteStream.{BodyFrame, data_frame, other_frame, new}
use pd_edge.Http.ByteStream.Run.{next_chunk_of, next_line_of, reaches_end, Reads, new-Reads}
use pd_edge.Http.ByteStream.Cuts.{answers_to, answers_to-cuts}

abbrev two_lines : List BodyFrame
two_lines = data_frame (text "a") ∷ data_frame [] ∷ data_frame (text "b\nc") ∷ other_frame ∷ []

new-Reads_example :
    Reads (text "ab\nc") (next_chunk_of 9 ∷ next_line_of ∷ reaches_end ∷ []) (new two_lines)
new-Reads_example = new-Reads two_lines (next_chunk_of 9 ∷ next_line_of ∷ reaches_end ∷ []) tt

abbrev one_piece : List BodyFrame
one_piece = data_frame (text "ab\nc") ∷ []

answers_to-cuts_example :
    answers_to (next_line_of ∷ next_line_of ∷ reaches_end ∷ []) (new two_lines)
    ≡ answers_to (next_line_of ∷ next_line_of ∷ reaches_end ∷ []) (new one_piece)
answers_to-cuts_example =
    answers_to-cuts two_lines one_piece (next_line_of ∷ next_line_of ∷ reaches_end ∷ []) refl tt tt
      (tt, (tt, (tt, tt)))
