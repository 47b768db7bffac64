-- ===== src/Http/ByteStream/Lines.antt =====
-- body_io.rs: `read_next_line` gives the lines of the body, wherever its frames are cut.
use pd_edge.Common.{
  ℕ, suc, ◌+◌, ◌≤◌, ◌<◌, List, [], ◌∷◌, ◌++◌, Option, none, some, Bool, true, false, ltb, ◌==◌,
  if◌then◌else◌, length, take, drop, ◌≡◌, refl, sym, ap, ◌∙◌, arith, Bool-cases, Option-cases, inl,
  inr, ◌⊎◌, take-append, drop-append, length-drop,
}
use Prim.Native.Nat.{min}
use mathlib.Core.Path.{subst}
use pd_edge.Common.Bytes.{Text}
use pd_edge.Http.ByteStream.{
  BufferedByteStream, BodyFrame, InboundRequestBodyState, pull_while, find_lf, next_line, line_from,
  lacks_line, take_line, read_next_line,
}
use pd_edge.Http.ByteStream.Pulling.{IsViewOf, pull_while-Pulled}
use pd_edge.Http.ByteStream.Refines.{
  IsBodyOf, Gives, buffered_first, buffered_whole, moved, Behind, then_read-Gives,
}

-- The line at a position, and the position behind it.
abbrev pub line_at : Text → ℕ → Text × ℕ
line_at whole position = elim (find_lf (drop position whole)) [
  | none ↦ (drop position whole, length whole)
  | some n ↦ (take n (drop position whole), position + n + 1)
]

find_lf_nil : find_lf [] ≡ none
unfolding find_lf
find_lf_nil = refl

find_lf-append :
    (xs ys : Text) {n : ℕ} → find_lf xs ≡ some n → (find_lf (xs ++ ys) ≡ some n) × (n < length xs)
unfolding find_lf
find_lf-append [] ys e = absurd (ground (arith, e))
find_lf-append (x ∷ xs) ys {n} e = elim (Bool-cases (x == 10)) [
  | inl h ↦ let z : 0 ≡ n = ground (arith, e, h) in rw (h, ← z) (refl, omega arith)
  | inr h ↦ elim (Option-cases (find_lf xs)) [
    | inl f ↦ absurd (ground (arith, e, h, f))
    | inr (m, f) ↦
        let ih = find_lf-append xs ys f in
        let z : suc m ≡ n = ground (arith, e, h, f) in
        rw (h, ← z) (rw ih.0 refl, ground (arith, ih.1))
  ]
]

abbrev stream_of : Text → ℕ → Bool → BufferedByteStream
stream_of buffered read_offset eof = record {
  buffered = buffered;
  read_offset = read_offset;
  eof = eof;
}

drop_end : (off : ℕ) (xs : Text) → off ≡ length xs → drop off xs ≡ []
drop_end off xs e = rw e (drop_all xs)
  where
    drop_all : (xs : Text) → drop (length xs) xs ≡ []
    drop_all [] = refl
    drop_all (x ∷ xs) = drop_all xs

-- A line that is found in the buffer is the line of the body.
line_in_buffer :
    (whole buffered more : Text) (off n : ℕ)
    → buffered ++ more ≡ whole
    → off ≤ length buffered
    → find_lf (drop off buffered) ≡ some n
    → (line_at whole off ≡ (take n (drop off buffered), off + n + 1))
      × (off + n + 1 ≤ length buffered)
line_in_buffer whole buffered more off n e h f =
    let (stays, within) = find_lf-append (drop off buffered) more f in
    let d = length-drop off buffered in
    let same : drop off buffered ++ more ≡ drop off whole =
      sym (drop-append off buffered more h) ∙ ap (drop off) e in
    let g : find_lf (drop off whole) ≡ some n = ap find_lf (sym same) ∙ stays in
    let t : take n (drop off whole) ≡ take n (drop off buffered) =
      ap (take n) (sym same) ∙ take-append n (drop off buffered) more (omega arith) in
    (rw (g, t, line_at) refl, omega (arith, d, within, h))

line_at-none :
    (whole : Text) (off : ℕ)
    → find_lf (drop off whole) ≡ none
    → line_at whole off ≡ (drop off whole, length whole)
line_at-none whole off f = rw (f, line_at) refl

line_to_end :
    (whole buffered : Text) (off : ℕ)
    → buffered ≡ whole
    → find_lf (drop off buffered) ≡ none
    → line_at whole off ≡ (drop off buffered, length buffered)
line_to_end whole buffered off e f =
    subst (λ w. line_at w off ≡ (drop off buffered, length buffered)) e
      (line_at-none buffered off f)

-- Either there is no line yet, and the body goes on, or it is the line of the body.
abbrev LineIn : Text → ℕ → Text → Bool → Option (Text × ℕ) → Type 0
LineIn whole off buffered eof found =
    ((found ≡ none) × (eof ≡ false))
    ⊎ ((found ≡ some (line_at whole off)) × ((line_at whole off).1 ≤ length buffered))

line_from-LineIn :
    (whole : Text) (body : Option (List BodyFrame)) (buffered : Text) (off : ℕ) (eof : Bool)
    → IsViewOf whole body (stream_of buffered off eof)
    → off ≤ length buffered
    → LineIn whole off buffered eof (line_from off (stream_of buffered off eof))
unfolding line_from
line_from-LineIn whole body buffered off eof v inside =
    elim (Bool-cases (ltb off (length buffered))) [
      | inl c ↦ elim (Option-cases (find_lf (drop off buffered))) [
        | inl f ↦ rw (c, f) (unended eof v f)
        | inr (n, f) ↦
            let (more, first) = buffered_first whole body (stream_of buffered off eof) v in
            let (l, b) = line_in_buffer whole buffered more off n first inside f in
            rw (c, f) (rw l (inr (refl, b)))
      ]
      | inr c ↦ rw c (at_offset eof v (ground (arith, c, inside)))
    ]
  where
    unended :
        (eof : Bool)
        → IsViewOf whole body (stream_of buffered off eof)
        → find_lf (drop off buffered) ≡ none
        → LineIn whole off buffered eof
            (if eof then some (drop off buffered, length buffered) else none)
    unended false v f = inl (refl, refl)
    unended true v f =
        let l =
          line_to_end whole buffered off
            (buffered_whole whole body (stream_of buffered off true) v refl) f in
        rw l (inr (refl, omega arith))

    at_offset :
        (eof : Bool)
        → IsViewOf whole body (stream_of buffered off eof)
        → off ≡ length buffered
        → LineIn whole off buffered eof (if eof then some ([], off) else none)
    at_offset false v e = inl (refl, refl)
    at_offset true v e =
        let d = drop_end off buffered e in
        let f : find_lf (drop off buffered) ≡ none = ap find_lf d ∙ find_lf_nil in
        let l =
          line_to_end whole buffered off
            (buffered_whole whole body (stream_of buffered off true) v refl) f in
        rw (l, d, e) (inr (refl, omega arith))

next_line-LineIn :
    (whole : Text) (body : Option (List BodyFrame)) (t : BufferedByteStream)
    → IsViewOf whole body t
    → t.read_offset ≤ length t.buffered
    → LineIn whole t.read_offset t.buffered t.eof (next_line t)
unfolding next_line
next_line-LineIn whole body t v inside =
    let m : min t.read_offset (length t.buffered) ≡ t.read_offset = omega arith in
    subst (λ k. LineIn whole t.read_offset t.buffered t.eof (line_from k t)) (sym m)
      (line_from-LineIn whole body t.buffered t.read_offset t.eof v inside)

until_eof-lacks_line : (s : BufferedByteStream) → s.eof ≡ true → lacks_line s ≡ false
unfolding lacks_line next_line line_from
until_eof-lacks_line s e =
    at_eof (min s.read_offset (length s.buffered)) s.buffered s.read_offset s.eof e
  where
    at_eof :
        (start : ℕ) (buffered : Text) (off : ℕ) (eof : Bool)
        → eof ≡ true
        → elim (line_from start (stream_of buffered off eof)) [ none ↦ true | some line ↦ false ]
          ≡ false
    at_eof start buffered off false e = absurd (ground (arith, e))
    at_eof start buffered off true e = elim (Bool-cases (ltb start (length buffered))) [
      | inl c ↦ elim (Option-cases (find_lf (drop start buffered))) [
        | inl f ↦ rw (c, f) refl
        | inr (n, f) ↦ rw (c, f) refl
      ]
      | inr c ↦ rw c refl
    ]

line_behind :
    (whole : Text) (body : Option (List BodyFrame)) (t : BufferedByteStream)
    → IsViewOf whole body t
    → t.read_offset ≤ length t.buffered
    → lacks_line t ≡ false
    → (((take_line t).0, (take_line t).1.read_offset) ≡ line_at whole t.read_offset)
      × IsViewOf whole body (take_line t).1
      × ((take_line t).1.read_offset ≤ length (take_line t).1.buffered)
unfolding take_line lacks_line
line_behind whole body t w inside idle =
    found (next_line t) (next_line-LineIn whole body t w inside) idle
  where
    found :
        (line : Option (Text × ℕ))
        → LineIn whole t.read_offset t.buffered t.eof line
        → elim line [ none ↦ true | some l ↦ false ] ≡ false
        → let read : Text × BufferedByteStream = elim line [
          | none ↦ ([], t)
          | some (l, end) ↦ (l, record t { read_offset = end })
        ] in
          (((read).0, (read).1.read_offset) ≡ line_at whole t.read_offset)
          × IsViewOf whole body (read).1
          × ((read).1.read_offset ≤ length (read).1.buffered)
    found none l idle = absurd (ground (arith, idle))
    found (some (line, end)) (inl l) idle = absurd (ground (arith, l.0))
    found (some (line, end)) (inr (e, b)) idle =
        let same : (line, end) ≡ line_at whole t.read_offset =
          ap (λ (o : Option (Text × ℕ)). elim o [ none ↦ (line, end) | some l ↦ l ]) e in
        let ends : end ≡ (line_at whole t.read_offset).1 = ap (λ (l : Text × ℕ). l.1) same in
        (same, moved whole body t end w, omega (arith, ends, b))

pub read_next_line-Gives :
    (whole : Text) (s : InboundRequestBodyState)
    → IsBodyOf whole s
    → Gives
        (λ line position. (line, position) ≡ line_at whole s.stream.read_offset)
        whole
        (read_next_line s)
unfolding read_next_line Behind
read_next_line-Gives whole s (v, h) =
    then_read-Gives lacks_line _ whole s.stream (pull_while lacks_line s) take_line
      (pull_while-Pulled lacks_line until_eof-lacks_line whole s v)
      (λ body t w offset longer idle.
        let (l, u, b) = line_behind whole body t w (omega (arith, h, offset, longer)) idle in
        (l ∙ ap (line_at whole) offset, u, b))
