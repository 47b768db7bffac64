-- ===== src/Http/Http1/ChunkSize.antt =====
-- http1_fast_path.rs: the size of a chunk, as `pull_next` reads it from the chunk's first line.
pub mod Digits
use pd_edge.Common.{
  ◌⊎◌, inl, inr, ℕ, zero, suc, [], ◌∷◌, none, some, ◌&&◌, ◌||◌, leb, ◌==◌, if◌then◌else◌, is_empty,
}
use pd_edge.Common.Whitespace.{trim}
use pd_edge.Common.Bytes.{Text, is_utf8}
use pd_edge.Http.Http1.Hex.{from_str_radix}

-- The messages of the bad requests.
pub data Reason : Type 0 where
  closed_before_content_length closed_before_chunk_size invalid_utf8 missing_chunk_size : Reason
  invalid_chunk_size closed_before_chunk_data closed_before_chunk_terminator : Reason
  invalid_chunk_terminator closed_before_trailers : Reason

-- `split(';').next()`
unfoldable pub before_semicolon : Text → Text
before_semicolon [] = []
before_semicolon (b ∷ bs) = if b == 59 then [] else b ∷ before_semicolon bs

unfoldable pub size_of : Text → Reason ⊎ ℕ
size_of [] = inl missing_chunk_size
size_of (b ∷ bs) = elim (from_str_radix (b ∷ bs)) [
  | none ↦ inl invalid_chunk_size
  | some size ↦ inr size
]

unfoldable pub chunk_size : Text → Reason ⊎ ℕ
chunk_size line = if is_utf8 line then size_of (trim (before_semicolon line)) else inl invalid_utf8
