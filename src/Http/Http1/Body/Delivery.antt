-- ===== src/Http/Http1/Body/Delivery.antt =====
-- http1_fast_path.rs: a body that keeps to the grammar is delivered whole, however its bytes arrive.
use pd_edge.Common.{
  append_nil, ℕ, zero, suc, ◌+◌, ◌-◌, ◌<◌, ◌≤◌, List, [], ◌∷◌, ◌++◌, none, some, false, ltb, ◌==◌,
  length, take, drop, ◌≡◌, refl, sym, ap, ◌∙◌, arith, inr, take-append_length,
}
use mathlib.Core.Path.{subst}
use pd_edge.Common.Bytes.{Text, text_eq}
use pd_edge.Http.Http1.ChunkSize.{
  closed_before_chunk_data, closed_before_trailers, Reason, chunk_size,
}
use pd_edge.Http.Http1.Lines.{
  starts_with_lf, Read, find_crlf, ReadOutcome, found, closed, broken, read_line,
  ensure_buffered_bytes,
}
use pd_edge.Http.Http1.Lines.Reading.{
  joined, IsWhole, Takes, read_line-Takes, ensure_buffered_bytes-Takes,
}
use pd_edge.Http.Http1.Body.{
  FastHttp1StreamingBodyKind, read_data, expect_chunk_terminator, read_trailers, fixed, chunked,
  FastHttp1RequestBodyState, Turn, continues, after_data, start_chunk, on_size_line, on_terminator,
  on_trailer, after_read, on_kind, turn, drain_remaining,
}
use pd_edge.Http.Http1.Body.Data.{due, reading, Leaves, Delivers, then_goes_on}
use pd_edge.Http.Http1.Body.Runs.{Runs, over, drain_remaining-Runs}
use pd_edge.Http.Http1.Body.Grammar.{
  IsLine, IsBody, fixed_body, chunk_line, chunk_data, terminator, last_chunk_line, trailer,
  blank_line,
}

-- What a turn does with a line that was found: it goes on to another kind of body.
after_read-Delivers :
    (reason : Reason) (next : Text → FastHttp1RequestBodyState → Turn) (incoming : List Read)
    (buffered : Text) (o : ReadOutcome Text) {budget budget' : ℕ}
    {kind' : FastHttp1StreamingBodyKind} {line more body rest : Text}
    {s : FastHttp1RequestBodyState}
    → turn s ≡ after_read reason next (reading (fixed 0) budget incoming buffered) o
    → Takes line more o
    → ((incoming : List Read) (buffered : Text)
        → next line (reading (fixed 0) budget incoming buffered)
          ≡ continues (reading kind' budget' incoming buffered))
    → Delivers kind' budget' more body rest
    → (u : FastHttp1RequestBodyState) × Runs s body u × Leaves rest u
unfolding after_read
after_read-Delivers reason next was_incoming was_buffered (found got incoming buffered)
      {budget = budget} e (g, whole, left) h d =
    then_goes_on
      (e ∙ ap (λ l. next l (reading (fixed 0) budget incoming buffered)) g ∙ h incoming buffered)
      (d incoming buffered whole left)
after_read-Delivers reason next was_incoming was_buffered (closed buffered) e k h d = absurd k
after_read-Delivers reason next was_incoming was_buffered (broken incoming buffered) e k h d =
    absurd k

fixed-Delivers :
    (budget : ℕ) (body rest : Text) → Delivers (fixed (length body)) budget (body ++ rest) body rest
unfolding turn on_kind
fixed-Delivers budget [] rest incoming buffered whole e =
    (reading (fixed 0) budget incoming buffered, over refl, (incoming, buffered, refl, whole, e))
fixed-Delivers budget (b ∷ bs) rest incoming buffered whole e =
    subst
      (λ z.
        (u : FastHttp1RequestBodyState) × Runs
          (reading (fixed (suc (length bs))) budget incoming buffered) z u
        × Leaves rest u)
      (append_nil (b ∷ bs))
      (due fixed _ budget (λ left incoming buffered. refl) rest [] rest
        (λ incoming buffered whole e. (
          reading (fixed 0) budget incoming buffered,
          over refl,
          (incoming, buffered, refl, whole, e),
        ))
        incoming buffered (b ∷ bs) (length bs) refl whole e)

drop_line : (line more : Text) → drop (length line + 2) (line ++ (13 ∷ 10 ∷ more)) ≡ more
drop_line [] more = refl
drop_line (b ∷ bs) more =
    let e : suc (length bs) + 2 ≡ suc (length bs + 2) = omega arith in
    ap (λ n. drop n ((b ∷ bs) ++ (13 ∷ 10 ∷ more))) e ∙ drop_line bs more

line-Takes :
    (line more input : Text) (incoming : List Read) (buffered : Text)
    → IsLine line more input
    → IsWhole incoming
    → buffered ++ joined incoming ≡ input
    → Takes line more (read_line incoming buffered)
line-Takes line more input incoming buffered (e, f) whole g =
    let takes = read_line-Takes incoming buffered input whole g f in
    let t : take (length line) input ≡ line = rw e (take-append_length line (13 ∷ 10 ∷ more)) in
    let d : drop (length line + 2) input ≡ more = rw e (drop_line line more) in
    subst (λ z. Takes z more (read_line incoming buffered)) t
      (subst (λ z. Takes (take (length line) input) z (read_line incoming buffered)) d takes)

size_line :
    (budget size : ℕ) (line : Text) (incoming : List Read) (buffered : Text)
    → chunk_size line ≡ inr size
    → 0 < size
    → size ≤ budget
    → on_size_line line (reading (fixed 0) budget incoming buffered)
      ≡ continues (reading (chunked (read_data size)) (budget - size) incoming buffered)
unfolding on_size_line start_chunk
size_line budget size line incoming buffered e h k =
    let z : (size == 0) ≡ false = ground arith in
    let l : ltb budget size ≡ false = ground arith in rw (e, on_size_line, z, l) refl

last_size_line :
    (budget : ℕ) (line : Text) (incoming : List Read) (buffered : Text)
    → chunk_size line ≡ inr 0
    → on_size_line line (reading (fixed 0) budget incoming buffered)
      ≡ continues (reading (chunked read_trailers) budget incoming buffered)
unfolding on_size_line start_chunk
last_size_line budget line incoming buffered e = rw (e, on_size_line) refl

after_data-suc : (left : ℕ) → after_data (suc left) ≡ chunked (read_data (suc left))
unfolding after_data
after_data-suc left = let e : (suc left == 0) ≡ false = ground arith in rw e refl

trailer_turn :
    (budget : ℕ) (line : Text) (incoming : List Read) (buffered : Text)
    → 0 < length line
    → on_trailer line (reading (fixed 0) budget incoming buffered)
      ≡ continues (reading (chunked read_trailers) budget incoming buffered)
unfolding on_trailer
trailer_turn budget [] incoming buffered h = absurd (omega arith)
trailer_turn budget (b ∷ bs) incoming buffered h = refl

blank_turn :
    {s : FastHttp1RequestBodyState} {rest : Text} (budget : ℕ) (incoming : List Read)
    (buffered : Text) (o : ReadOutcome Text)
    → turn s
      ≡ after_read closed_before_trailers on_trailer (reading (fixed 0) budget incoming buffered) o
    → Takes [] rest o
    → (u : FastHttp1RequestBodyState) × Runs s [] u × Leaves rest u
unfolding after_read on_trailer
blank_turn budget incoming buffered (found got incoming' buffered') e (g, whole, left) = (
  reading (fixed 0) budget incoming' buffered',
  over (e ∙ ap (λ l. on_trailer l (reading (fixed 0) budget incoming' buffered')) g),
  (incoming', buffered', refl, whole, left),
)
blank_turn budget incoming buffered (closed buffered') e k = absurd k
blank_turn budget incoming buffered (broken incoming' buffered') e k = absurd k

crlf_first : (rest : Text) → find_crlf (13 ∷ 10 ∷ rest) ≡ some 0
unfolding find_crlf starts_with_lf
crlf_first rest = refl

data-Delivers :
    (budget left : ℕ) (bytes more body rest : Text) {input : Text}
    → input ≡ bytes ++ more
    → length bytes ≡ left
    → Delivers (chunked expect_chunk_terminator) budget more body rest
    → Delivers (chunked (read_data left)) budget input (bytes ++ body) rest
unfolding turn on_kind after_data
data-Delivers budget zero [] more body rest e n d =
    λ incoming buffered whole g. then_goes_on refl (d incoming buffered whole (g ∙ e))
data-Delivers budget zero (b ∷ bs) more body rest e n d = absurd (omega (arith, n))
data-Delivers budget (suc left) bytes more body rest e n d = λ incoming buffered whole g.
    let at_left : after_data (suc left) ≡ chunked (read_data (suc left)) = after_data-suc left in
    subst
      (λ k.
        (u : FastHttp1RequestBodyState) × Runs (reading k budget incoming buffered) (bytes ++ body)
          u
        × Leaves rest u)
      at_left
      (due after_data closed_before_chunk_data budget
        (λ left incoming buffered.
          ap (λ k. turn (reading k budget incoming buffered)) (after_data-suc left))
        more body rest d incoming buffered bytes left n whole (g ∙ e))

-- A body that keeps to the grammar is delivered, however its bytes arrive.
pub IsBody-Delivers :
    {kind : FastHttp1StreamingBodyKind} {budget : ℕ} {input body rest : Text}
    → IsBody kind budget input body rest
    → Delivers kind budget input body rest
unfolding turn on_kind on_terminator text_eq
IsBody-Delivers {budget = budget} {body = body} {rest = rest} (fixed_body e) =
    subst (λ z. Delivers (fixed (length body)) budget z body rest) (sym e)
      (fixed-Delivers budget body rest)
IsBody-Delivers {budget = budget} {input = input} (chunk_line {size = size} line more l e h k b) =
    λ incoming buffered whole g.
      after_read-Delivers _ on_size_line incoming buffered (read_line incoming buffered) refl
        (line-Takes line more input incoming buffered l whole g)
        (λ incoming buffered. size_line budget size line incoming buffered e h k)
        (IsBody-Delivers b)
IsBody-Delivers {budget = budget} {input = input} (last_chunk_line line more l e b) =
    λ incoming buffered whole g.
      after_read-Delivers _ on_size_line incoming buffered (read_line incoming buffered) refl
        (line-Takes line more input incoming buffered l whole g)
        (λ incoming buffered. last_size_line budget line incoming buffered e) (IsBody-Delivers b)
IsBody-Delivers {budget = budget} {rest = rest} (chunk_data bytes more e n b) =
    data-Delivers budget _ bytes more _ rest e n (IsBody-Delivers b)
IsBody-Delivers {budget = budget} {input = input} (terminator more e b) =
    λ incoming buffered whole g.
      after_read-Delivers _ on_terminator incoming buffered
        (ensure_buffered_bytes 2 incoming buffered) refl
        (ensure_buffered_bytes-Takes 2 incoming buffered (13 ∷ 10 ∷ more) whole (g ∙ e)
          (omega arith))
        (λ incoming buffered. refl) (IsBody-Delivers b)
IsBody-Delivers {budget = budget} {input = input} (trailer line more l h b) =
    λ incoming buffered whole g.
      after_read-Delivers _ on_trailer incoming buffered (read_line incoming buffered) refl
        (line-Takes line more input incoming buffered l whole g)
        (λ incoming buffered. trailer_turn budget line incoming buffered h) (IsBody-Delivers b)
IsBody-Delivers {budget = budget} {rest = rest} (blank_line e) = λ incoming buffered whole g.
    blank_turn budget incoming buffered (read_line incoming buffered) refl
      (line-Takes [] rest (13 ∷ 10 ∷ rest) incoming buffered (refl, crlf_first rest) whole (g ∙ e))

-- Whatever the reads that bring them, the bytes of a body that keeps to the grammar are delivered, the
-- body ends without an error, and the bytes behind it stay on the connection.
pub drain_remaining-IsBody :
    {kind : FastHttp1StreamingBodyKind} {budget : ℕ} {input body rest : Text} (incoming : List Read)
    (buffered : Text)
    → IsBody kind budget input body rest
    → IsWhole incoming
    → buffered ++ joined incoming ≡ input
    → (u : FastHttp1RequestBodyState) × (drain_remaining (reading kind budget incoming buffered)
        ≡ some (body, none, u))
      × Leaves rest u
drain_remaining-IsBody incoming buffered b whole e =
    let (u, r, l) = IsBody-Delivers b incoming buffered whole e in
    (u, drain_remaining-Runs refl r, l)
