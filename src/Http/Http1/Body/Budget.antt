-- ===== src/Http/Http1/Body/Budget.antt =====
-- http1_fast_path.rs: a body never has more bytes than it may have.
use pd_edge.Common.{
  ℕ, zero, suc, ◌+◌, ◌-◌, ◌≤◌, [], ◌∷◌, Option, none, some, ltb, ◌==◌, ◌⊎◌, length, ◌≡◌, refl,
  arith, Bool-cases, inl, inr, length-take, length-append, List,
}
use Prim.Native.Nat.{min}
use mathlib.Core.Path.{subst}
use pd_edge.Common.Bytes.{Text, text_eq}
use pd_edge.Http.Http1.ChunkSize.{Reason, chunk_size}
use pd_edge.Http.Http1.Lines.{
  Read, arrives, breaks, ReadOutcome, found, closed, broken, read_line, ensure_buffered_bytes,
}
use pd_edge.Http.Http1.Body.Cases.{with_connection-cases, with_parts-cases}
use pd_edge.Http.Http1.Body.{
  FastHttp1ReadError, bad_request, FastHttp1StreamingBodyKind, need_size, read_data,
  expect_chunk_terminator, read_trailers, fixed, chunked, FastHttp1RequestBodyState, Turn,
  continues, gives, ends, fails, remember_error, set_parts, set_kind, read_more, take_data,
  after_data, start_chunk, on_size_line, on_terminator, on_trailer, after_read, on_kind, turn,
  Pulled, chunk, end_of_body, failure, settle, pull_loop, weight, pull_next, Drained, prepend,
  after_pull, drain_loop, drain_remaining,
}

-- How many bytes a body of the kind may still have.
unfoldable pub allowed : FastHttp1StreamingBodyKind → ℕ → ℕ
allowed (fixed left) budget = left
allowed (chunked need_size) budget = budget
allowed (chunked (read_data left)) budget = left + budget
allowed (chunked expect_chunk_terminator) budget = budget
allowed (chunked read_trailers) budget = budget

abbrev pub allowance : FastHttp1RequestBodyState → ℕ
allowance s = allowed s.kind s.remaining_budget

Stays : ℕ → Turn → Type 0
Stays w (continues t) = allowance t ≤ w
Stays w (gives bytes t) = length bytes + allowance t ≤ w
Stays w (ends t) = Unit
Stays w (fails error t) = Unit

read_more-Stays :
    (kind : FastHttp1StreamingBodyKind) (reason : Reason) (s : FastHttp1RequestBodyState)
    (incoming : List Read) (buffered : Text)
    → Stays (allowed kind s.remaining_budget) (read_more kind reason s incoming buffered)
unfolding Stays read_more remember_error
read_more-Stays kind reason s [] buffered = tt
read_more-Stays kind reason s (breaks ∷ incoming) buffered = tt
read_more-Stays kind reason s (arrives b bs ∷ incoming) buffered = omega arith

take_data-Stays :
    (kind_at : ℕ → FastHttp1StreamingBodyKind) (extra : ℕ) (reason : Reason) (left : ℕ)
    (s : FastHttp1RequestBodyState)
    → ((n : ℕ) → allowed (kind_at n) s.remaining_budget ≡ n + extra)
    → Stays (left + extra) (take_data kind_at reason left s)
unfolding Stays take_data
take_data-Stays kind_at extra reason left s h =
    with_connection-cases (Stays (left + extra)) s tt _ (λ c e.
      elim (Bool-cases (length c.buffered == 0)) [
        | inl f ↦ rw f (
            with_parts-cases (Stays (left + extra)) s tt _ tt (λ d incoming g k.
              subst (λ w. Stays w (read_more (kind_at left) reason s incoming d.buffered)) (h left)
                (read_more-Stays (kind_at left) reason s incoming d.buffered)))
        | inr f ↦
            let taken = length-take (min (length c.buffered) left) c.buffered in
            let later = h (left - min (length c.buffered) left) in
            rw (f) (omega (arith, taken, later))
      ])

start_chunk-Stays :
    (size : ℕ) (s : FastHttp1RequestBodyState) → Stays s.remaining_budget (start_chunk size s)
unfolding Stays start_chunk allowed
start_chunk-Stays size s = elim (Bool-cases (size == 0)) [
  | inl e ↦ rw e (omega arith)
  | inr e ↦ elim (Bool-cases (ltb s.remaining_budget size)) [
    | inl f ↦ rw (e, f) tt
    | inr f ↦ rw (e, f) (ground (arith, f))
  ]
]

on_size_line-Stays :
    (line : Text) (s : FastHttp1RequestBodyState) → Stays s.remaining_budget (on_size_line line s)
unfolding Stays on_size_line remember_error
on_size_line-Stays line s = at_size (chunk_size line)
  where
    at_size :
        (size : Reason ⊎ ℕ)
        → Stays s.remaining_budget (elim size [
          | inr n ↦ start_chunk n s
          | inl reason ↦ remember_error (bad_request reason) s
        ])
    at_size (inl reason) = tt
    at_size (inr n) = start_chunk-Stays n s

on_terminator-Stays :
    (bytes : Text) (s : FastHttp1RequestBodyState)
    → Stays s.remaining_budget (on_terminator bytes s)
unfolding Stays on_terminator remember_error allowed
on_terminator-Stays bytes s = elim (Bool-cases (text_eq bytes (13 ∷ 10 ∷ []))) [
  | inl e ↦ rw e (omega arith)
  | inr e ↦ rw e tt
]

on_trailer-Stays :
    (line : Text) (s : FastHttp1RequestBodyState) → Stays s.remaining_budget (on_trailer line s)
unfolding Stays on_trailer allowed
on_trailer-Stays [] s = tt
on_trailer-Stays (b ∷ bs) s = omega arith

after_read-Stays :
    (reason : Reason) (next : Text → FastHttp1RequestBodyState → Turn)
    (s : FastHttp1RequestBodyState) (o : ReadOutcome Text)
    → ((bytes : Text) (t : FastHttp1RequestBodyState) → Stays t.remaining_budget (next bytes t))
    → Stays s.remaining_budget (after_read reason next s o)
unfolding Stays after_read remember_error
after_read-Stays reason next s (found bytes incoming buffered) h =
    h bytes (set_parts incoming buffered s)
after_read-Stays reason next s (closed buffered) h = tt
after_read-Stays reason next s (broken incoming buffered) h = tt

after_data-allowed : (budget n : ℕ) → allowed (after_data n) budget ≡ n + budget
unfolding after_data allowed
after_data-allowed budget n = elim (Bool-cases (n == 0)) [
  | inl e ↦ rw e (ground (arith, e))
  | inr e ↦ rw e refl
]

on_kind-Stays :
    (kind : FastHttp1StreamingBodyKind) (s : FastHttp1RequestBodyState)
    → Stays (allowed kind s.remaining_budget) (on_kind kind s)
unfolding Stays on_kind allowed
on_kind-Stays (fixed zero) s = tt
on_kind-Stays (fixed (suc left)) s =
    let e : suc left + 0 ≡ suc left = omega arith in
    subst (λ w. Stays w (on_kind (fixed (suc left)) s)) e
      (take_data-Stays fixed 0 _ (suc left) s (λ n. omega arith))
on_kind-Stays (chunked need_size) s =
    with_parts-cases (Stays s.remaining_budget) s tt _ tt (λ c incoming e f.
      after_read-Stays _ on_size_line s (read_line incoming c.buffered) on_size_line-Stays)
on_kind-Stays (chunked (read_data zero)) s = omega arith
on_kind-Stays (chunked (read_data (suc left))) s =
    take_data-Stays after_data s.remaining_budget _ (suc left) s
      (after_data-allowed s.remaining_budget)
on_kind-Stays (chunked expect_chunk_terminator) s =
    with_parts-cases (Stays s.remaining_budget) s tt _ tt (λ c incoming e f.
      after_read-Stays _ on_terminator s (ensure_buffered_bytes 2 incoming c.buffered)
        on_terminator-Stays)
on_kind-Stays (chunked read_trailers) s =
    with_parts-cases (Stays s.remaining_budget) s tt _ tt (λ c incoming e f.
      after_read-Stays _ on_trailer s (read_line incoming c.buffered) on_trailer-Stays)

turn-Stays : (s : FastHttp1RequestBodyState) → Stays (allowance s) (turn s)
unfolding turn
turn-Stays s = on_kind-Stays s.kind (set_kind (fixed 0) s)

-- The same of the result of a call, and of the calls to the end.
Fits : ℕ → Option (Pulled × FastHttp1RequestBodyState) → Type 0
Fits w none = Unit
Fits w (some (chunk bytes, t)) = length bytes + allowance t ≤ w
Fits w (some (end_of_body, t)) = Unit
Fits w (some (failure error, t)) = Unit

Fits-mono :
    (v w : ℕ) (o : Option (Pulled × FastHttp1RequestBodyState)) → v ≤ w → Fits v o → Fits w o
unfolding Fits
Fits-mono v w none h k = tt
Fits-mono v w (some (chunk bytes, t)) h k = omega arith
Fits-mono v w (some (end_of_body, t)) h k = tt
Fits-mono v w (some (failure error, t)) h k = tt

settle-Fits :
    (w : ℕ) (u : Turn)
    (again : FastHttp1RequestBodyState → Option (Pulled × FastHttp1RequestBodyState))
    → Stays w u
    → ((s : FastHttp1RequestBodyState) → Fits (allowance s) (again s))
    → Fits w (settle u again)
unfolding Stays settle Fits
settle-Fits w (continues s) again k h = Fits-mono (allowance s) w (again s) k (h s)
settle-Fits w (gives bytes s) again k h = k
settle-Fits w (ends s) again k h = tt
settle-Fits w (fails error s) again k h = tt

pull_loop-Fits : (fuel : ℕ) (s : FastHttp1RequestBodyState) → Fits (allowance s) (pull_loop fuel s)
unfolding pull_loop Fits
pull_loop-Fits zero s = tt
pull_loop-Fits (suc fuel) s =
    settle-Fits (allowance s) (turn s) (pull_loop fuel) (turn-Stays s) (pull_loop-Fits fuel)

pull_next-Fits : (s : FastHttp1RequestBodyState) → Fits (allowance s) (pull_next s)
unfolding pull_next Fits
pull_next-Fits s = at_error s.terminal_error
  where
    at_error :
        (error : Option FastHttp1ReadError)
        → Fits
            (allowance s)
            (elim error [ some e ↦ some (failure e, s) | none ↦ pull_loop (suc (weight s)) s ])
    at_error none = pull_loop-Fits (suc (weight s)) s
    at_error (some e) = tt

HasAtMost : ℕ → Option Drained → Type 0
HasAtMost w none = Unit
HasAtMost w (some (body, error, t)) = length body ≤ w

after_pull-HasAtMost :
    (w : ℕ) (o : Option (Pulled × FastHttp1RequestBodyState))
    (again : FastHttp1RequestBodyState → Option Drained)
    → Fits w o
    → ((s : FastHttp1RequestBodyState) → HasAtMost (allowance s) (again s))
    → HasAtMost w (after_pull o again)
unfolding Fits after_pull HasAtMost prepend
after_pull-HasAtMost w none again k h = tt
after_pull-HasAtMost w (some (chunk bytes, t)) again k h = prepended (again t) (h t)
  where
    prepended : (o : Option Drained) → HasAtMost (allowance t) o → HasAtMost w (prepend bytes o)
    prepended none l = tt
    prepended (some (body, error, u)) l = let n = length-append bytes body in omega (arith, n, l, k)
after_pull-HasAtMost w (some (end_of_body, t)) again k h = omega arith
after_pull-HasAtMost w (some (failure error, t)) again k h = omega arith

drain_loop-HasAtMost :
    (fuel : ℕ) (s : FastHttp1RequestBodyState) → HasAtMost (allowance s) (drain_loop fuel s)
unfolding drain_loop HasAtMost
drain_loop-HasAtMost zero s = tt
drain_loop-HasAtMost (suc fuel) s =
    after_pull-HasAtMost (allowance s) (pull_next s) (drain_loop fuel) (pull_next-Fits s)
      (drain_loop-HasAtMost fuel)

-- Whatever the connection delivers, and however the reading ends, the bytes of a body are at most what
-- is left of a fixed body, or of a chunk and the budget.
pub drain_remaining-length :
    (s t : FastHttp1RequestBodyState) (body : Text) (error : Option FastHttp1ReadError)
    → drain_remaining s ≡ some (body, error, t)
    → length body ≤ allowance s
unfolding drain_remaining HasAtMost
drain_remaining-length s t body error e =
    subst (HasAtMost (allowance s)) e (drain_loop-HasAtMost (suc (weight s)) s)
