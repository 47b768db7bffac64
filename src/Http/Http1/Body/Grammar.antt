-- ===== src/Http/Http1/Body/Grammar.antt =====
-- http1_fast_path.rs: what the body of a request is, as a grammar of its bytes that knows nothing of
-- reads and buffers (RFC 9112, with the limits of the code).
use pd_edge.Common.{ℕ, ◌-◌, ◌<◌, ◌≤◌, [], ◌∷◌, ◌++◌, some, ◌≡◌, inr, length}
use pd_edge.Common.Bytes.{Text}
use pd_edge.Http.Http1.ChunkSize.{chunk_size}
use pd_edge.Http.Http1.Lines.{find_crlf}
use pd_edge.Http.Http1.Body.{
  FastHttp1StreamingBodyKind, fixed, chunked, need_size, read_data, expect_chunk_terminator,
  read_trailers,
}

-- The input has the line and its end in front, and no line end before.
abbrev pub IsLine : Text → Text → Text → Type 0
IsLine line more input = (input ≡ line ++ (13 ∷ 10 ∷ more)) × (find_crlf input ≡ some (length line))

-- A body of the kind, within the budget, at the front of the input, and the rest behind it.
pub data IsBody : FastHttp1StreamingBodyKind → ℕ → Text → Text → Text → Type 0 where
  fixed_body :
      {budget : ℕ} {input body rest : Text}
      → input ≡ body ++ rest
      → IsBody (fixed (length body)) budget input body rest
  chunk_line :
      {size budget : ℕ} {input body rest : Text} (line more : Text)
      → IsLine line more input
      → chunk_size line ≡ inr size
      → 0 < size
      → size ≤ budget
      → IsBody (chunked (read_data size)) (budget - size) more body rest
      → IsBody (chunked need_size) budget input body rest
  chunk_data :
      {left budget : ℕ} {input body rest : Text} (bytes more : Text)
      → input ≡ bytes ++ more
      → length bytes ≡ left
      → IsBody (chunked expect_chunk_terminator) budget more body rest
      → IsBody (chunked (read_data left)) budget input (bytes ++ body) rest
  terminator :
      {budget : ℕ} {input body rest : Text} (more : Text)
      → input ≡ 13 ∷ 10 ∷ more
      → IsBody (chunked need_size) budget more body rest
      → IsBody (chunked expect_chunk_terminator) budget input body rest
  last_chunk_line :
      {budget : ℕ} {input body rest : Text} (line more : Text)
      → IsLine line more input
      → chunk_size line ≡ inr 0
      → IsBody (chunked read_trailers) budget more body rest
      → IsBody (chunked need_size) budget input body rest
  trailer :
      {budget : ℕ} {input body rest : Text} (line more : Text)
      → IsLine line more input
      → 0 < length line
      → IsBody (chunked read_trailers) budget more body rest
      → IsBody (chunked read_trailers) budget input body rest
  blank_line :
      {budget : ℕ} {input rest : Text}
      → input ≡ 13 ∷ 10 ∷ rest
      → IsBody (chunked read_trailers) budget input [] rest
