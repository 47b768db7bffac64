-- ===== src/Http/Http1/Body/Weight.antt =====
-- http1_fast_path.rs: what a turn of `pull_next` leaves to go on with weighs less than what it began with.
use pd_edge.Common.{
  ◌⊎◌, leb, ℕ, zero, suc, ◌+◌, ◌-◌, ◌*◌, ◌<◌, ◌≤◌, List, [], ◌∷◌, ◌++◌, Option, none, some, ltb,
  ◌==◌, length, ◌≡◌, refl, ap, ◌∙◌, arith, Bool-cases, inl, inr, length-drop, length-append,
}
use Prim.Native.Nat.{min}
use pd_edge.Common.Bytes.{Text, text_eq}
use pd_edge.Http.Http1.ChunkSize.{Reason, chunk_size}
use pd_edge.Http.Http1.Lines.{
  Read, arrives, breaks, find_crlf, ReadOutcome, found, closed, broken, line_or, read_line,
  bytes_or, ensure_buffered_bytes,
}
use pd_edge.Http.Http1.Lines.Reading.{find_crlf-append}
use pd_edge.Http.Http1.Body.Cases.{with_connection-cases, with_parts-cases}
use pd_edge.Http.Http1.Body.{
  FastHttp1ReadError, FastHttp1StreamingBodyKind, need_size, read_data, expect_chunk_terminator,
  read_trailers, fixed, chunked, FastHttp1RequestBodyState, Turn, continues, gives, ends, fails,
  remember_error, set_parts, set_kind, with_parts, read_more, take_data, after_data, start_chunk,
  on_size_line, on_terminator, on_trailer, after_read, on_kind, turn, reads_weight, stream_weight,
  connection_weight, kind_weight, weight,
}

-- What a turn leaves to go on with weighs less.
abbrev pub Lowers : ℕ → Turn → Type 0
Lowers w (continues t) = weight t < w
Lowers w (gives bytes t) = weight t < w
Lowers w (ends t) = Unit
Lowers w (fails error t) = Unit

-- Two or more bytes were taken.
Lightens : ℕ → ReadOutcome Text → Type 0
Lightens w (found bytes incoming buffered) = 2 * length buffered + reads_weight incoming + 4 ≤ w
Lightens w (closed buffered) = Unit
Lightens w (broken incoming buffered) = Unit

line_or-Lightens :
    (line : Option ℕ) (incoming : List Read) (buffered : Text) (otherwise : ReadOutcome Text)
    → find_crlf buffered ≡ line
    → Lightens (2 * length buffered + reads_weight incoming) otherwise
    → Lightens
        (2 * length buffered + reads_weight incoming)
        (line_or line incoming buffered otherwise)
unfolding line_or Lightens
line_or-Lightens none incoming buffered otherwise e h = h
line_or-Lightens (some n) incoming buffered otherwise e h =
    let taken = (find_crlf-append buffered [] e).1 in
    let left = length-drop (n + 2) buffered in omega (arith, taken, left)

Lightens-mono : (v w : ℕ) (o : ReadOutcome Text) → v ≤ w → Lightens v o → Lightens w o
unfolding Lightens
Lightens-mono v w (found bytes incoming buffered) h k = omega arith
Lightens-mono v w (closed buffered) h k = tt
Lightens-mono v w (broken incoming buffered) h k = tt

read_line-Lightens :
    (incoming : List Read) (buffered : Text)
    → Lightens (2 * length buffered + reads_weight incoming) (read_line incoming buffered)
unfolding read_line Lightens reads_weight
read_line-Lightens [] buffered =
    line_or-Lightens (find_crlf buffered) [] buffered (closed buffered) refl tt
read_line-Lightens (breaks ∷ incoming) buffered =
    line_or-Lightens (find_crlf buffered) (breaks ∷ incoming) buffered (broken incoming buffered)
      refl tt
read_line-Lightens (arrives b bs ∷ incoming) buffered =
    let grown = length-append buffered (b ∷ bs) in
    line_or-Lightens (find_crlf buffered) (arrives b bs ∷ incoming) buffered
      (read_line incoming (buffered ++ (b ∷ bs))) refl
      (Lightens-mono _ _ (read_line incoming (buffered ++ (b ∷ bs))) (omega (arith, grown))
        (read_line-Lightens incoming (buffered ++ (b ∷ bs))))

bytes_or-Lightens :
    (incoming : List Read) (buffered : Text) (otherwise : ReadOutcome Text)
    → Lightens (2 * length buffered + reads_weight incoming) otherwise
    → Lightens
        (2 * length buffered + reads_weight incoming)
        (bytes_or 2 incoming buffered otherwise)
unfolding bytes_or Lightens
bytes_or-Lightens incoming buffered otherwise h = elim (Bool-cases (leb 2 (length buffered))) [
  | inl e ↦
      let left = length-drop 2 buffered in
      let enough : 2 ≤ length buffered = ground (arith, e) in rw e (omega (arith, left))
  | inr e ↦ rw e h
]

ensure_buffered_bytes-Lightens :
    (incoming : List Read) (buffered : Text)
    → Lightens
        (2 * length buffered + reads_weight incoming)
        (ensure_buffered_bytes 2 incoming buffered)
unfolding ensure_buffered_bytes Lightens reads_weight
ensure_buffered_bytes-Lightens [] buffered = bytes_or-Lightens [] buffered (closed buffered) tt
ensure_buffered_bytes-Lightens (breaks ∷ incoming) buffered =
    bytes_or-Lightens (breaks ∷ incoming) buffered (broken incoming buffered) tt
ensure_buffered_bytes-Lightens (arrives b bs ∷ incoming) buffered =
    let grown = length-append buffered (b ∷ bs) in
    bytes_or-Lightens (arrives b bs ∷ incoming) buffered
      (ensure_buffered_bytes 2 incoming (buffered ++ (b ∷ bs)))
      (Lightens-mono _ _ (ensure_buffered_bytes 2 incoming (buffered ++ (b ∷ bs)))
        (omega (arith, grown)) (ensure_buffered_bytes-Lightens incoming (buffered ++ (b ∷ bs))))

with_parts-Lowers :
    (w : ℕ) (s : FastHttp1RequestBodyState) (next : List Read → Text → Turn)
    → ((incoming : List Read) (buffered : Text)
        → connection_weight s.connection ≡ 2 * length buffered + reads_weight incoming
        → Lowers w (next incoming buffered))
    → Lowers w (with_parts s next)
unfolding connection_weight stream_weight
with_parts-Lowers w s next h = with_parts-cases (Lowers w) s tt next tt (λ c incoming e f.
    h incoming c.buffered
      (ap connection_weight e ∙ ap (λ r. 2 * length c.buffered + stream_weight r) f))

read_more-Lowers :
    (kind : FastHttp1StreamingBodyKind) (reason : Reason) (s : FastHttp1RequestBodyState) (w : ℕ)
    (incoming : List Read) (buffered : Text)
    → kind_weight kind ≤ w
    → Lowers
        (2 * length buffered + reads_weight incoming + w)
        (read_more kind reason s incoming buffered)
unfolding read_more remember_error weight connection_weight stream_weight reads_weight
read_more-Lowers kind reason s w [] buffered h = tt
read_more-Lowers kind reason s w (breaks ∷ incoming) buffered h = tt
read_more-Lowers kind reason s w (arrives b bs ∷ incoming) buffered h =
    let grown = length-append buffered (b ∷ bs) in omega (arith, grown)

-- The kind weighs at most `w` whatever is left.
take_data-Lowers :
    (kind_at : ℕ → FastHttp1StreamingBodyKind) (reason : Reason) (left w : ℕ)
    (s : FastHttp1RequestBodyState)
    → 0 < left
    → ((n : ℕ) → kind_weight (kind_at n) ≤ w)
    → Lowers (connection_weight s.connection + w) (take_data kind_at reason left s)
unfolding take_data weight connection_weight
take_data-Lowers kind_at reason left w s positive bound =
    with_connection-cases (Lowers (connection_weight s.connection + w)) s tt _ (λ c e.
      let there : connection_weight s.connection ≡ 2 * length c.buffered + stream_weight c.stream =
        ap connection_weight e in
      elim (Bool-cases (length c.buffered == 0)) [
        | inl f ↦ rw f (
            with_parts-Lowers _ s _ (λ incoming buffered g.
              rw g (read_more-Lowers (kind_at left) reason s w incoming buffered (bound left))))
        | inr f ↦
            let dropped = length-drop (min (length c.buffered) left) c.buffered in
            let lighter = bound (left - min (length c.buffered) left) in
            rw (f, there) (ground (arith, dropped, lighter, f, positive))
      ])

start_chunk-Lowers :
    (size w : ℕ) (s : FastHttp1RequestBodyState)
    → connection_weight s.connection + 1 < w
    → Lowers w (start_chunk size s)
unfolding start_chunk weight kind_weight
start_chunk-Lowers size w s h = elim (Bool-cases (size == 0)) [
  | inl e ↦ rw e (omega arith)
  | inr e ↦ elim (Bool-cases (ltb s.remaining_budget size)) [
    | inl f ↦ rw (e, f) tt
    | inr f ↦ rw (e, f) h
  ]
]

on_size_line-Lowers :
    (w : ℕ) (line : Text) (s : FastHttp1RequestBodyState)
    → connection_weight s.connection + 1 < w
    → Lowers w (on_size_line line s)
unfolding on_size_line remember_error
on_size_line-Lowers w line s h = by_size (chunk_size line)
  where
    by_size :
        (size : Reason ⊎ ℕ)
        → Lowers w (elim size [
          | inr n ↦ start_chunk n s
          | inl reason ↦ remember_error (FastHttp1ReadError.bad_request reason) s
        ])
    by_size (inl reason) = tt
    by_size (inr n) = start_chunk-Lowers n w s h

on_terminator-Lowers :
    (w : ℕ) (bytes : Text) (s : FastHttp1RequestBodyState)
    → connection_weight s.connection + 1 < w
    → Lowers w (on_terminator bytes s)
unfolding on_terminator remember_error weight kind_weight
on_terminator-Lowers w bytes s h = elim (Bool-cases (text_eq bytes (13 ∷ 10 ∷ []))) [
  | inl e ↦ rw e (omega arith)
  | inr e ↦ rw e tt
]

on_trailer-Lowers :
    (w : ℕ) (line : Text) (s : FastHttp1RequestBodyState)
    → connection_weight s.connection + 1 < w
    → Lowers w (on_trailer line s)
unfolding on_trailer weight kind_weight
on_trailer-Lowers w [] s h = tt
on_trailer-Lowers w (b ∷ bs) s h = omega arith

after_read-Lowers :
    (reason : Reason) (next : Text → FastHttp1RequestBodyState → Turn)
    (s : FastHttp1RequestBodyState) (w : ℕ) (o : ReadOutcome Text)
    → ((bytes : Text) (t : FastHttp1RequestBodyState)
        → connection_weight t.connection + 1 < w
        → Lowers w (next bytes t))
    → Lightens w o
    → Lowers w (after_read reason next s o)
unfolding after_read remember_error Lightens connection_weight stream_weight
after_read-Lowers reason next s w (found bytes incoming buffered) h k =
    h bytes (set_parts incoming buffered s) (omega arith)
after_read-Lowers reason next s w (closed buffered) h k = tt
after_read-Lowers reason next s w (broken incoming buffered) h k = tt

after_data-weight : (n : ℕ) → kind_weight (after_data n) ≤ 1
unfolding after_data kind_weight
after_data-weight n = elim (Bool-cases (n == 0)) [
  | inl e ↦ rw e (omega arith)
  | inr e ↦ rw e (omega arith)
]

on_kind-Lowers :
    (kind : FastHttp1StreamingBodyKind) (s : FastHttp1RequestBodyState)
    → Lowers (connection_weight s.connection + kind_weight kind) (on_kind kind s)
unfolding on_kind kind_weight weight
on_kind-Lowers (fixed zero) s = tt
on_kind-Lowers (fixed (suc left)) s =
    take_data-Lowers fixed _ (suc left) 0 s (omega arith) (λ n. omega arith)
on_kind-Lowers (chunked need_size) s = with_parts-Lowers _ s _ (λ incoming buffered g.
    after_read-Lowers _ on_size_line s _ (read_line incoming buffered) (on_size_line-Lowers _) (
      Lightens-mono _ _ (read_line incoming buffered) (omega (arith, g))
        (read_line-Lightens incoming buffered)))
on_kind-Lowers (chunked (read_data zero)) s = omega arith
on_kind-Lowers (chunked (read_data (suc left))) s =
    take_data-Lowers after_data _ (suc left) 1 s (omega arith) after_data-weight
on_kind-Lowers (chunked expect_chunk_terminator) s = with_parts-Lowers _ s _ (λ incoming buffered g.
    after_read-Lowers _ on_terminator s _ (ensure_buffered_bytes 2 incoming buffered)
      (on_terminator-Lowers _)
      (Lightens-mono _ _ (ensure_buffered_bytes 2 incoming buffered) (omega (arith, g))
        (ensure_buffered_bytes-Lightens incoming buffered)))
on_kind-Lowers (chunked read_trailers) s = with_parts-Lowers _ s _ (λ incoming buffered g.
    after_read-Lowers _ on_trailer s _ (read_line incoming buffered) (on_trailer-Lowers _) (
      Lightens-mono _ _ (read_line incoming buffered) (omega (arith, g))
        (read_line-Lightens incoming buffered)))

pub turn-Lowers : (s : FastHttp1RequestBodyState) → Lowers (weight s) (turn s)
unfolding turn weight
turn-Lowers s = on_kind-Lowers s.kind (set_kind (fixed 0) s)
