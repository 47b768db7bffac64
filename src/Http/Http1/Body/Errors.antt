-- ===== src/Http/Http1/Body/Errors.antt =====
-- http1_fast_path.rs: what `pull_next` answers after it has failed.
use pd_edge.Common.{
  ℕ, zero, suc, List, [], ◌∷◌, Option, none, some, Bool, true, false, ltb, ◌==◌, if◌then◌else◌, ◌⊎◌,
  length, ◌-◌, ◌≡◌, refl, sym, ap, ◌∙◌, Bool-cases, inl, inr,
}
use mathlib.Core.Path.{subst}
use pd_edge.Common.Bytes.{Text, text_eq}
use pd_edge.Http.Http1.ChunkSize.{Reason, chunk_size}
use pd_edge.Http.Http1.Lines.{
  Read, arrives, breaks, ReadOutcome, found, closed, broken, read_line, ensure_buffered_bytes,
}
use pd_edge.Http.Http1.Body.Cases.{with_connection-cases, with_parts-cases}
use pd_edge.Http.Http1.Body.{
  FastHttp1ReadError, io, bad_request, payload_too_large, FastHttp1StreamingBodyKind, need_size,
  read_data, expect_chunk_terminator, read_trailers, fixed, chunked, FastHttp1RequestBodyState,
  Turn, continues, gives, ends, fails, remember_error, with_parts, set_parts, set_kind, read_more,
  take_data, after_data, start_chunk, on_size_line, on_terminator, on_trailer, after_read, on_kind,
  turn, Pulled, chunk, end_of_body, failure, settle, pull_loop, weight, pull_next,
}

-- No error is kept, and the kind is the one that `std::mem::replace` leaves.
abbrev IsEmptied : FastHttp1RequestBodyState → Type 0
IsEmptied s = (s.terminal_error ≡ none) × (s.kind ≡ fixed 0)

-- A bad request is kept; of another error nothing is.
abbrev Recalls : FastHttp1ReadError → FastHttp1RequestBodyState → Type 0
Recalls (bad_request reason) t = t.terminal_error ≡ some (bad_request reason)
Recalls (io error) t = IsEmptied t
Recalls payload_too_large t = IsEmptied t

Keeps : Turn → Type 0
Keeps (continues t) = t.terminal_error ≡ none
Keeps (gives bytes t) = Unit
Keeps (ends t) = Unit
Keeps (fails error t) = Recalls error t

with_parts-Keeps :
    (s : FastHttp1RequestBodyState) (next : List Read → Text → Turn)
    → IsEmptied s
    → ((incoming : List Read) (buffered : Text) → Keeps (next incoming buffered))
    → Keeps (with_parts s next)
unfolding Keeps
with_parts-Keeps s next emptied h =
    with_parts-cases Keeps s emptied next emptied (λ c incoming e f. h incoming c.buffered)

read_more-Keeps :
    (kind : FastHttp1StreamingBodyKind) (reason : Reason) (s : FastHttp1RequestBodyState)
    (incoming : List Read) (buffered : Text)
    → IsEmptied s
    → Keeps (read_more kind reason s incoming buffered)
unfolding Keeps read_more remember_error
read_more-Keeps kind reason s [] buffered emptied = refl
read_more-Keeps kind reason s (breaks ∷ incoming) buffered emptied = emptied
read_more-Keeps kind reason s (arrives b bs ∷ incoming) buffered emptied = emptied.0

take_data-Keeps :
    (kind_at : ℕ → FastHttp1StreamingBodyKind) (reason : Reason) (left : ℕ)
    (s : FastHttp1RequestBodyState)
    → IsEmptied s
    → Keeps (take_data kind_at reason left s)
unfolding Keeps take_data
take_data-Keeps kind_at reason left s emptied = with_connection-cases Keeps s emptied _ (λ c e.
    elim (Bool-cases (length c.buffered == 0)) [
      | inl f ↦ rw f (
          with_parts-Keeps s _ emptied (λ incoming buffered.
            read_more-Keeps (kind_at left) reason s incoming buffered emptied))
      | inr f ↦ rw f tt
    ])

after_read-Keeps :
    (reason : Reason) (next : Text → FastHttp1RequestBodyState → Turn)
    (s : FastHttp1RequestBodyState) (o : ReadOutcome Text)
    → IsEmptied s
    → ((bytes : Text) (t : FastHttp1RequestBodyState) → IsEmptied t → Keeps (next bytes t))
    → Keeps (after_read reason next s o)
unfolding Keeps after_read remember_error
after_read-Keeps reason next s (found bytes incoming buffered) emptied h =
    h bytes (set_parts incoming buffered s) emptied
after_read-Keeps reason next s (closed buffered) emptied h = refl
after_read-Keeps reason next s (broken incoming buffered) emptied h = emptied

on_size_line-Keeps :
    (line : Text) (s : FastHttp1RequestBodyState) → IsEmptied s → Keeps (on_size_line line s)
unfolding Keeps on_size_line start_chunk remember_error
on_size_line-Keeps line s emptied = at_size (chunk_size line)
  where
    at_start :
        (a b : Bool) (size : ℕ)
        → Keeps (
            if a
            then continues (set_kind (chunked read_trailers) s)
            else if b
            then fails payload_too_large s
            else continues (record s {
              remaining_budget = s.remaining_budget - size;
              kind = chunked (read_data size);
            }))
    at_start true b size = emptied.0
    at_start false true size = emptied
    at_start false false size = emptied.0

    at_size :
        (size : Reason ⊎ ℕ)
        → Keeps (elim size [
          | inr n ↦ start_chunk n s
          | inl reason ↦ remember_error (bad_request reason) s
        ])
    at_size (inl reason) = refl
    at_size (inr n) = at_start (n == 0) (ltb s.remaining_budget n) n

on_terminator-Keeps :
    (bytes : Text) (s : FastHttp1RequestBodyState) → IsEmptied s → Keeps (on_terminator bytes s)
unfolding Keeps on_terminator remember_error
on_terminator-Keeps bytes s emptied = elim (Bool-cases (text_eq bytes (13 ∷ 10 ∷ []))) [
  | inl e ↦ rw e emptied.0
  | inr e ↦ rw e refl
]

on_trailer-Keeps :
    (line : Text) (s : FastHttp1RequestBodyState) → IsEmptied s → Keeps (on_trailer line s)
unfolding Keeps on_trailer
on_trailer-Keeps [] s emptied = tt
on_trailer-Keeps (b ∷ bs) s emptied = emptied.0

on_kind-Keeps :
    (kind : FastHttp1StreamingBodyKind) (s : FastHttp1RequestBodyState)
    → IsEmptied s
    → Keeps (on_kind kind s)
unfolding Keeps on_kind
on_kind-Keeps (fixed zero) s emptied = tt
on_kind-Keeps (fixed (suc left)) s emptied = take_data-Keeps fixed _ (suc left) s emptied
on_kind-Keeps (chunked need_size) s emptied = with_parts-Keeps s _ emptied (λ incoming buffered.
    after_read-Keeps _ on_size_line s (read_line incoming buffered) emptied on_size_line-Keeps)
on_kind-Keeps (chunked (read_data zero)) s emptied = emptied.0
on_kind-Keeps (chunked (read_data (suc left))) s emptied =
    take_data-Keeps after_data _ (suc left) s emptied
on_kind-Keeps (chunked expect_chunk_terminator) s emptied =
    with_parts-Keeps s _ emptied (λ incoming buffered.
      after_read-Keeps _ on_terminator s (ensure_buffered_bytes 2 incoming buffered) emptied
        on_terminator-Keeps)
on_kind-Keeps (chunked read_trailers) s emptied = with_parts-Keeps s _ emptied (λ incoming buffered.
    after_read-Keeps _ on_trailer s (read_line incoming buffered) emptied on_trailer-Keeps)

turn-Keeps : (s : FastHttp1RequestBodyState) → s.terminal_error ≡ none → Keeps (turn s)
unfolding turn
turn-Keeps s e = on_kind-Keeps s.kind (set_kind (fixed 0) s) (e, refl)

-- The same of the result of a call.
Answers : Option (Pulled × FastHttp1RequestBodyState) → Type 0
Answers none = Unit
Answers (some (chunk bytes, t)) = Unit
Answers (some (end_of_body, t)) = Unit
Answers (some (failure error, t)) = Recalls error t

settle-Answers :
    (u : Turn) (again : FastHttp1RequestBodyState → Option (Pulled × FastHttp1RequestBodyState))
    → Keeps u
    → ((s : FastHttp1RequestBodyState) → s.terminal_error ≡ none → Answers (again s))
    → Answers (settle u again)
unfolding Keeps settle Answers
settle-Answers (continues s) again k h = h s k
settle-Answers (gives bytes s) again k h = tt
settle-Answers (ends s) again k h = tt
settle-Answers (fails error s) again k h = k

pull_loop-Answers :
    (fuel : ℕ) (s : FastHttp1RequestBodyState)
    → s.terminal_error ≡ none
    → Answers (pull_loop fuel s)
unfolding pull_loop Answers
pull_loop-Answers zero s e = tt
pull_loop-Answers (suc fuel) s e =
    settle-Answers (turn s) (pull_loop fuel) (turn-Keeps s e) (pull_loop-Answers fuel)

-- The answer to a call behind a failed one.
abbrev pub answer_after : FastHttp1ReadError → Pulled
answer_after (bad_request reason) = failure (bad_request reason)
answer_after (io error) = end_of_body
answer_after payload_too_large = end_of_body

pull_next-stored :
    (s : FastHttp1RequestBodyState) {stored : Option FastHttp1ReadError}
    → s.terminal_error ≡ stored
    → pull_next s
      ≡ elim stored [ some error ↦ some (failure error, s) | none ↦ pull_loop (suc (weight s)) s ]
unfolding pull_next
pull_next-stored s e =
    ap
      (λ (stored : Option FastHttp1ReadError). elim stored [
        | some error ↦ some (failure error, s)
        | none ↦ pull_loop (suc (weight s)) s
      ])
      e

pull_next-emptied :
    (t : FastHttp1RequestBodyState) → IsEmptied t → pull_next t ≡ some (end_of_body, t)
unfolding pull_loop turn on_kind settle
pull_next-emptied t (stored, emptied) =
    pull_next-stored t stored
    ∙ ap (λ k. settle (on_kind k (set_kind (fixed 0) t)) (pull_loop (weight t))) emptied
    ∙ ap (λ k. some (end_of_body, set_kind k t)) (sym emptied)

recalled :
    (error : FastHttp1ReadError) (t : FastHttp1RequestBodyState)
    → Recalls error t
    → pull_next t ≡ some (answer_after error, t)
recalled (bad_request reason) t h = pull_next-stored t h
recalled (io error) t h = pull_next-emptied t h
recalled payload_too_large t h = pull_next-emptied t h

-- Once a call has failed with a bad request, each later one fails with the same; but once it has failed
-- for a body beyond the budget or for an error of the stream, a later one reports the end of the body,
-- as if it had been read whole.
pub pull_next_again :
    (s t : FastHttp1RequestBodyState) (error : FastHttp1ReadError)
    → s.terminal_error ≡ none
    → pull_next s ≡ some (failure error, t)
    → pull_next t ≡ some (answer_after error, t)
unfolding Answers
pull_next_again s t error e h =
    recalled error t
      (subst Answers (sym (pull_next-stored s e) ∙ h) (pull_loop-Answers (suc (weight s)) s e))
