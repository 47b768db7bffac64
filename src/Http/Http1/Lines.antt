-- ===== src/Http/Http1/Lines.antt =====
-- http1_fast_path.rs: reading from a connection into its buffer, up to a number of bytes or to the end
-- of a line. What the stream will deliver is a list of reads; after the last one it is closed.
pub mod Reading
use pd_edge.Common.{
  ℕ, suc, ◌+◌, List, [], ◌∷◌, ◌++◌, Option, none, some, Bool, false, ◌&&◌, leb, ◌==◌, if◌then◌else◌,
  length, take, drop,
}
use pd_edge.Common.Bytes.{Text}

-- One read: one or more bytes arrive, or it fails.
pub data Read : Type 0 where
  arrives : ℕ → Text → Read
  breaks : Read

unfoldable pub starts_with_lf : Text → Bool
starts_with_lf [] = false
starts_with_lf (b ∷ bs) = b == 10

unfoldable pub find_crlf : Text → Option ℕ
find_crlf [] = none
find_crlf (b ∷ bs) =
    if b == 13 && starts_with_lf bs
    then some 0
    else elim (find_crlf bs) [ none ↦ none | some line_end ↦ some (suc line_end) ]

-- What reading comes to (with `A` the value that it looks for), and what is left to read and in the
-- buffer.
pub data ReadOutcome (A : Type 0) : Type 0 where
  found : A → List Read → Text → ReadOutcome A
  closed : Text → ReadOutcome A
  broken : List Read → Text → ReadOutcome A

-- One turn of the loop of `read_fast_http1_line`: the line in the buffer, else what another read leads
-- to.
unfoldable pub line_or : Option ℕ → List Read → Text → ReadOutcome Text → ReadOutcome Text
line_or (some line_end) incoming buffered otherwise =
    found (take line_end buffered) incoming (drop (line_end + 2) buffered)
line_or none incoming buffered otherwise = otherwise

unfoldable pub read_line : List Read → Text → ReadOutcome Text
read_line [] buffered = line_or (find_crlf buffered) [] buffered (closed buffered)
read_line (breaks ∷ incoming) buffered =
    line_or (find_crlf buffered) (breaks ∷ incoming) buffered (broken incoming buffered)
read_line (arrives b bs ∷ incoming) buffered =
    line_or (find_crlf buffered) (arrives b bs ∷ incoming) buffered
      (read_line incoming (buffered ++ (b ∷ bs)))

-- The first `count` bytes, once the buffer has them.
unfoldable pub bytes_or : ℕ → List Read → Text → ReadOutcome Text → ReadOutcome Text
bytes_or count incoming buffered otherwise =
    if leb count (length buffered)
    then found (take count buffered) incoming (drop count buffered)
    else otherwise

-- `ensure_fast_http1_buffered_bytes`, and the `split_to(count)` that follows it.
unfoldable pub ensure_buffered_bytes : ℕ → List Read → Text → ReadOutcome Text
ensure_buffered_bytes count [] buffered = bytes_or count [] buffered (closed buffered)
ensure_buffered_bytes count (breaks ∷ incoming) buffered =
    bytes_or count (breaks ∷ incoming) buffered (broken incoming buffered)
ensure_buffered_bytes count (arrives b bs ∷ incoming) buffered =
    bytes_or count (arrives b bs ∷ incoming) buffered
      (ensure_buffered_bytes count incoming (buffered ++ (b ∷ bs)))
