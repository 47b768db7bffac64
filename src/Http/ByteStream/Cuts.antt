-- ===== src/Http/ByteStream/Cuts.antt =====
-- body_io.rs: two bodies with the same bytes, cut into frames in two ways, read alike.
use pd_edge.Common.{ℕ, List, [], ◌∷◌, Option, none, some, All, ◌≡◌, refl, sym, ap, ◌∙◌, arith}
use pd_edge.Common.Bytes.{Text}
use mathlib.Core.Path.{subst}
use pd_edge.Http.ByteStream.{BodyFrame, InboundRequestBodyState, new}
use pd_edge.Http.ByteStream.Pulling.{joined, IsSound}
use pd_edge.Http.ByteStream.Refines.{IsBodyOf}
use pd_edge.Http.ByteStream.Run.{
  Op, next_chunk_of, next_line_of, all_of, consume_all, reaches_end, Answer, bytes_answer,
  flag_answer, apply, Promises, answers,
}

unfoldable pub prepend_answer : Answer → Option (List Answer) → Option (List Answer)
prepend_answer answer none = none
prepend_answer answer (some later) = some (answer ∷ later)

-- The answers to a run of reads, or `none` if one of them fails.
unfoldable pub answers_to : List Op → InboundRequestBodyState → Option (List Answer)
answers_to [] s = some []
answers_to (op ∷ ops) s = elim (apply op s) [
  | none ↦ none
  | some (answer, t) ↦ prepend_answer answer (answers_to ops t)
]

-- Not a read of a piece, whose length depends on the frames.
abbrev pub IsWholeRead : Op → Type 0
IsWholeRead (next_chunk_of max_bytes) = ⊥
IsWholeRead next_line_of = Unit
IsWholeRead all_of = Unit
IsWholeRead consume_all = Unit
IsWholeRead reaches_end = Unit

line_of_pair : {l m : Text} {p q : ℕ} → ◌≡◌ {A = Text × ℕ} (l, p) (m, q) → (l ≡ m) × (p ≡ q)
line_of_pair e = (ap (λ (x : Text × ℕ). x.0) e, ap (λ (x : Text × ℕ). x.1) e)

promised_once :
    (whole : Text) (position : ℕ) (op : Op) (a b : Answer) (p q : ℕ)
    → IsWholeRead op
    → Promises whole position op a p
    → Promises whole position op b q
    → (a ≡ b) × (p ≡ q)
promised_once whole position (next_chunk_of n) a b p q w h k = absurd w
promised_once whole position next_line_of (bytes_answer l) (bytes_answer m) p q w h k =
    let (e, f) = line_of_pair (h ∙ sym k) in (ap bytes_answer e, f)
promised_once whole position next_line_of (bytes_answer l) (flag_answer m) p q w h k = absurd k
promised_once whole position next_line_of (flag_answer l) b p q w h k = absurd h
promised_once whole position all_of (bytes_answer l) (bytes_answer m) p q w h k =
    (ap bytes_answer (h.0 ∙ sym k.0), h.1 ∙ sym k.1)
promised_once whole position all_of (bytes_answer l) (flag_answer m) p q w h k = absurd k
promised_once whole position all_of (flag_answer l) b p q w h k = absurd h
promised_once whole position consume_all (bytes_answer l) (bytes_answer m) p q w h k =
    (ap bytes_answer (h.0 ∙ sym k.0), h.1 ∙ sym k.1)
promised_once whole position consume_all (bytes_answer l) (flag_answer m) p q w h k = absurd k
promised_once whole position consume_all (flag_answer l) b p q w h k = absurd h
promised_once whole position reaches_end (flag_answer l) (flag_answer m) p q w h k =
    (ap flag_answer (h.0 ∙ sym k.0), h.1 ∙ sym k.1)
promised_once whole position reaches_end (flag_answer l) (bytes_answer m) p q w h k = absurd k
promised_once whole position reaches_end (bytes_answer l) b p q w h k = absurd h

answered_by :
    (op : Op) (ops : List Op) (s : InboundRequestBodyState) {answer : Answer}
    {t : InboundRequestBodyState}
    → apply op s ≡ some (answer, t)
    → answers_to (op ∷ ops) s ≡ prepend_answer answer (answers_to ops t)
unfolding answers_to
answered_by op ops s e =
    ap
      (λ (o : Option (Answer × InboundRequestBodyState)). elim o [
        | none ↦ none
        | some (answer, t) ↦ prepend_answer answer (answers_to ops t)
      ])
      e

same_answers :
    (whole : Text) (ops : List Op) (s t : InboundRequestBodyState)
    → IsBodyOf whole s
    → IsBodyOf whole t
    → s.stream.read_offset ≡ t.stream.read_offset
    → All IsWholeRead ops
    → answers_to ops s ≡ answers_to ops t
unfolding answers_to
same_answers whole [] s t b c e w = refl
same_answers whole (op ∷ ops) s t b c e w =
    let (a, s', f, p, b') = answers whole op s b in
    let (d, t', g, q, c') = answers whole op t c in
    let q' = subst (λ k. Promises whole k op d t'.stream.read_offset) (sym e) q in
    let (same, there) = promised_once whole s.stream.read_offset op a d _ _ w.0 p q' in
    answered_by op ops s f
    ∙ (ap (prepend_answer a) (same_answers whole ops s' t' b' c' there w.1)
        ∙ (ap (λ x. prepend_answer x (answers_to ops t')) same ∙ sym (answered_by op ops t g)))

-- Two new bodies with the same bytes answer any lines, whole bodies and tests for the end alike, in any
-- order, wherever their frames are cut, if no frame is an error.
pub answers_to-cuts :
    (frames frames' : List BodyFrame) (ops : List Op)
    → joined frames ≡ joined frames'
    → IsSound frames
    → IsSound frames'
    → All IsWholeRead ops
    → answers_to ops (new frames) ≡ answers_to ops (new frames')
unfolding new
answers_to-cuts frames frames' ops e sound sound' w =
    same_answers (joined frames) ops (new frames) (new frames') ((refl, sound, refl), omega arith)
      ((sym e, sound', refl), omega arith) refl w
