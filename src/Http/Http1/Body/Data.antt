-- ===== src/Http/Http1/Body/Data.antt =====
-- http1_fast_path.rs: the bytes of a fixed body or of a chunk, however they arrive.
use pd_edge.Common.{
  append_assoc, leb, length-drop, take-drop_joined, take-append, drop-append, ℕ, suc, ◌-◌, ◌≤◌,
  List, [], ◌∷◌, ◌++◌, none, some, false, ◌==◌, length, take, drop, ◌≡◌, refl, sym, ap, ◌∙◌, arith,
  Bool-cases, inl, inr, take-append_length, drop-append_length,
}
use mathlib.Core.Path.{subst}
use Prim.Native.Nat.{min}
use pd_edge.Common.Bytes.{Text}
use pd_edge.Http.Http1.ChunkSize.{Reason}
use pd_edge.Http.Http1.Lines.{Read, arrives, breaks}
use pd_edge.Http.Http1.Lines.Reading.{joined, IsWhole}
use pd_edge.Http.Http1.Body.{
  FastHttp1StreamingBodyKind, fixed, FastHttp1RequestBodyState, continues, gives, read_more,
  take_data, turn,
}
use pd_edge.Http.Http1.Body.Runs.{Runs, goes_on, gave}

-- A connection with a stream, before any error.
abbrev pub reading : FastHttp1StreamingBodyKind → ℕ → List Read → Text → FastHttp1RequestBodyState
reading kind budget incoming buffered = record {
  connection = some (record { stream = some incoming; buffered = buffered });
  kind = kind;
  remaining_budget = budget;
  terminal_error = none;
}

-- The rest is all that the connection has left, in its buffer and to come, and no error is kept.
abbrev pub Leaves : Text → FastHttp1RequestBodyState → Type 0
Leaves rest u =
    (incoming : List Read) × (buffered : Text) × (u
      ≡ reading (fixed 0) u.remaining_budget incoming buffered)
    × IsWhole incoming
    × (buffered ++ joined incoming ≡ rest)

-- However the input arrives, the body is delivered and the rest is left.
abbrev pub Delivers : FastHttp1StreamingBodyKind → ℕ → Text → Text → Text → Type 0
Delivers kind budget input body rest =
    (incoming : List Read) (buffered : Text)
    → IsWhole incoming
    → buffered ++ joined incoming ≡ input
    → (u : FastHttp1RequestBodyState) × Runs (reading kind budget incoming buffered) body u
      × Leaves rest u

-- A turn that goes on to another kind of body.
pub then_goes_on :
    {s t : FastHttp1RequestBodyState} {body rest : Text}
    → turn s ≡ continues t
    → (u : FastHttp1RequestBodyState) × Runs t body u × Leaves rest u
    → (u : FastHttp1RequestBodyState) × Runs s body u × Leaves rest u
then_goes_on e (u, r, l) = (u, goes_on e r, l)

pub then_gave :
    {s t : FastHttp1RequestBodyState} {bytes body rest : Text}
    → turn s ≡ gives bytes t
    → t.terminal_error ≡ none
    → (u : FastHttp1RequestBodyState) × Runs t body u × Leaves rest u
    → (u : FastHttp1RequestBodyState) × Runs s (bytes ++ body) u × Leaves rest u
then_gave e n (u, r, l) = (u, gave e n r, l)

-- Two ways to cut the same bytes, the first cut behind the second.
cut_behind :
    (xs ys us vs : Text) {n : ℕ}
    → xs ++ ys ≡ us ++ vs
    → length us ≡ n
    → n ≤ length xs
    → (take n xs ≡ us) × (drop n xs ++ ys ≡ vs)
cut_behind xs ys us vs {n} e f h = (
  sym (take-append n xs ys h) ∙ ap (take n) e ∙ rw (← f) (take-append_length us vs),
  sym (drop-append n xs ys h) ∙ ap (drop n) e ∙ rw (← f) (drop-append_length us vs),
)

-- The first cut before the second.
cut_before :
    (xs ys us vs : Text)
    → xs ++ ys ≡ us ++ vs
    → length xs ≤ length us
    → (xs ++ drop (length xs) us ≡ us) × (ys ≡ drop (length xs) us ++ vs)
cut_before xs ys us vs e h =
    let (t, d) = cut_behind us vs xs ys (sym e) refl h in
    (ap (λ z. z ++ drop (length xs) us) (sym t) ∙ take-drop_joined (length xs) us, sym d)

take-length : (xs : Text) → take (length xs) xs ≡ xs
take-length [] = refl
take-length (x ∷ xs) = ap (◌∷◌ x) (take-length xs)

drop-length : (xs : Text) → drop (length xs) xs ≡ []
drop-length [] = refl
drop-length (x ∷ xs) = drop-length xs

take_data-buffered :
    (kind_at : ℕ → FastHttp1StreamingBodyKind) (reason : Reason) (budget left : ℕ)
    (incoming : List Read) (b : ℕ) (bs : Text) {taken left' : ℕ} {bytes buffered : Text}
    → min (length (b ∷ bs)) left ≡ taken
    → left - taken ≡ left'
    → take taken (b ∷ bs) ≡ bytes
    → drop taken (b ∷ bs) ≡ buffered
    → take_data kind_at reason left (reading (fixed 0) budget incoming (b ∷ bs))
      ≡ gives bytes (reading (kind_at left') budget incoming buffered)
unfolding take_data
take_data-buffered kind_at reason budget left incoming b bs m l t d =
    let z : (suc (length bs) == 0) ≡ false = ground arith in rw (z, ← t, ← d, ← l, ← m) refl

take_data-empty :
    (kind_at : ℕ → FastHttp1StreamingBodyKind) (reason : Reason) (budget left : ℕ)
    (incoming : List Read) (b : ℕ) (bs : Text)
    → take_data kind_at reason left (reading (fixed 0) budget (arrives b bs ∷ incoming) [])
      ≡ continues (reading (kind_at left) budget incoming (b ∷ bs))
unfolding take_data read_more
take_data-empty kind_at reason budget left incoming b bs = refl

module _ (kind_at : ℕ → FastHttp1StreamingBodyKind) (reason : Reason) (budget : ℕ)
    (turns : (left : ℕ) (incoming : List Read) (buffered : Text)
      → turn (reading (kind_at (suc left)) budget incoming buffered)
        ≡ take_data kind_at reason (suc left) (reading (fixed 0) budget incoming buffered))
    (more body rest : Text) (next : Delivers (kind_at 0) budget more body rest) where
  -- What is due is delivered, from this buffer on.
  abbrev pub Due : List Read → Text → Type 0
  Due incoming buffered =
      (bytes : Text) (left : ℕ)
      → length bytes ≡ suc left
      → IsWhole incoming
      → buffered ++ joined incoming ≡ bytes ++ more
      → (u : FastHttp1RequestBodyState) × Runs
          (reading (kind_at (suc left)) budget incoming buffered) (bytes ++ body) u
        × Leaves rest u

  Due-all :
      (b : ℕ) (bs : Text) (incoming : List Read) (bytes : Text) (left : ℕ)
      → length bytes ≡ suc left
      → IsWhole incoming
      → (b ∷ bs) ++ joined incoming ≡ bytes ++ more
      → suc left ≤ length (b ∷ bs)
      → (u : FastHttp1RequestBodyState) × Runs
          (reading (kind_at (suc left)) budget incoming (b ∷ bs))
          (bytes ++ body)
          u
        × Leaves rest u
  Due-all b bs incoming bytes left n whole e h =
      let (t, d) = cut_behind (b ∷ bs) (joined incoming) bytes more e n h in
      let m : min (length (b ∷ bs)) (suc left) ≡ suc left = omega arith in
      then_gave
        (turns left incoming (b ∷ bs)
          ∙ take_data-buffered kind_at reason budget (suc left) incoming b bs m (omega arith) t
              refl)
        refl (next incoming (drop (suc left) (b ∷ bs)) whole d)

  Due-more :
      (b : ℕ) (bs : Text) (incoming : List Read) (bytes : Text) (left : ℕ)
      → Due incoming []
      → length bytes ≡ suc left
      → IsWhole incoming
      → (b ∷ bs) ++ joined incoming ≡ bytes ++ more
      → length (b ∷ bs) ≤ left
      → (u : FastHttp1RequestBodyState) × Runs
          (reading (kind_at (suc left)) budget incoming (b ∷ bs))
          (bytes ++ body)
          u
        × Leaves rest u
  Due-more b bs incoming bytes left due n whole e h =
      let (whole_of, later) =
        cut_before (b ∷ bs) (joined incoming) bytes more e (omega (arith, n)) in
      let m : min (length (b ∷ bs)) (suc left) ≡ length (b ∷ bs) = omega arith in
      let l : suc left - length (b ∷ bs) ≡ suc (left - length (b ∷ bs)) = omega arith in
      let k = length-drop (length (b ∷ bs)) bytes in
      let (u, r, leaves) =
        then_gave
          (turns left incoming (b ∷ bs)
            ∙ take_data-buffered kind_at reason budget (suc left) incoming b bs m l
                (take-length (b ∷ bs)) (drop-length (b ∷ bs)))
          refl
          (due (drop (length (b ∷ bs)) bytes) (left - length (b ∷ bs)) (omega (arith, k, n)) whole
            later) in
      (
        u,
        subst (λ z. Runs (reading (kind_at (suc left)) budget incoming (b ∷ bs)) z u)
            (sym (append_assoc (b ∷ bs) (drop (length (b ∷ bs)) bytes) body)
              ∙ ap (λ z. z ++ body) whole_of)
            r,
        leaves,
      )

  Due-buffered :
      (b : ℕ) (bs : Text) (incoming : List Read) → Due incoming [] → Due incoming (b ∷ bs)
  Due-buffered b bs incoming due bytes left n whole e =
      elim (Bool-cases (leb (suc left) (length (b ∷ bs)))) [
        | inl t ↦ Due-all b bs incoming bytes left n whole e (ground (arith, t))
        | inr t ↦ Due-more b bs incoming bytes left due n whole e (ground (arith, t))
      ]

  Due-empty : (incoming : List Read) → Due incoming []
  Due-empty [] [] left n whole e = absurd (omega (arith, n))
  Due-empty [] (b ∷ bytes) left n whole e = absurd (ground (arith, e))
  Due-empty (breaks ∷ incoming) bytes left n whole e = absurd whole
  Due-empty (arrives b bs ∷ incoming) bytes left n whole e =
      then_goes_on
        (turns left (arrives b bs ∷ incoming) []
          ∙ take_data-empty kind_at reason budget (suc left) incoming b bs)
        (Due-buffered b bs incoming (Due-empty incoming) bytes left n whole e)

  pub due : (incoming : List Read) (buffered : Text) → Due incoming buffered
  due incoming [] = Due-empty incoming
  due incoming (b ∷ bs) = Due-buffered b bs incoming (Due-empty incoming)
