-- ===== src/Http/Http1/Lines/Reading.antt =====
-- http1_fast_path.rs: how the bytes that a line or a count takes depend on the reads that bring them.
use pd_edge.Common.{
  append_nil, append_assoc, All, ℕ, suc, ◌+◌, ◌≤◌, List, [], ◌∷◌, ◌++◌, some, true, false, ◌&&◌,
  leb, ◌==◌, length, take, drop, ◌≡◌, refl, sym, ap, ◌∙◌, arith, Bool-cases, Option-cases, inl, inr,
  take-append, drop-append, le→leb,
}
use pd_edge.Common.Bytes.{Text}
use pd_edge.Http.Http1.Lines.{
  Read, arrives, breaks, starts_with_lf, find_crlf, ReadOutcome, found, closed, broken, line_or,
  read_line, bytes_or, ensure_buffered_bytes,
}

-- The bytes that arrive.
abbrev pub joined : List Read → Text
joined [] = []
joined (arrives b bs ∷ incoming) = (b ∷ bs) ++ joined incoming
joined (breaks ∷ incoming) = joined incoming

-- No read fails.
abbrev pub IsWhole : List Read → Type 0
IsWhole [] = Unit
IsWhole (arrives b bs ∷ incoming) = IsWhole incoming
IsWhole (breaks ∷ incoming) = ⊥

-- The reading took these bytes, and left those for later.
abbrev pub Takes : Text → Text → ReadOutcome Text → Type 0
Takes bytes rest (found got incoming buffered) =
    (got ≡ bytes) × IsWhole incoming × (buffered ++ joined incoming ≡ rest)
Takes bytes rest (closed buffered) = ⊥
Takes bytes rest (broken incoming buffered) = ⊥

abbrev pub IsNotCr : ℕ → Type 0
IsNotCr b = (b == 13) ≡ false

-- A line without a carriage return ends where its end was written.
pub find_crlf_first :
    (line more : Text)
    → All IsNotCr line
    → find_crlf (line ++ (13 ∷ 10 ∷ more)) ≡ some (length line)
unfolding find_crlf starts_with_lf
find_crlf_first [] more h = refl
find_crlf_first (b ∷ bs) more h = rw (h.0, find_crlf_first bs more h.1) refl

-- What is found in a buffer stays where it is when more arrives.
pub find_crlf-append :
    (xs ys : Text) {n : ℕ}
    → find_crlf xs ≡ some n
    → (find_crlf (xs ++ ys) ≡ some n) × (n + 2 ≤ length xs)
unfolding find_crlf starts_with_lf
find_crlf-append [] ys e = absurd (ground arith)
find_crlf-append (x ∷ []) ys e = absurd (ground (arith, e))
find_crlf-append (x ∷ y ∷ xs) ys {n} e = elim (Bool-cases (x == 13 && (y == 10))) [
  | inl h ↦ let z : 0 ≡ n = ground (arith, e, h) in rw (h, z) (refl, omega arith)
  | inr h ↦ elim (Option-cases (find_crlf (y ∷ xs))) [
    | inl f ↦ absurd (ground (arith, e, h, f))
    | inr (m, f) ↦
        let ih = find_crlf-append (y ∷ xs) ys f in
        let z : suc m ≡ n = ground (arith, e, h, f) in
        rw (h, ← z) (rw ih.0 refl, ground (arith, ih.1))
  ]
]

found_early :
    (buffered more all : Text) {m n : ℕ}
    → buffered ++ more ≡ all
    → find_crlf buffered ≡ some m
    → find_crlf all ≡ some n
    → (take m buffered ≡ take n all) × (drop (m + 2) buffered ++ more ≡ drop (n + 2) all)
found_early buffered more all {m} {n} whole_of f e =
    let stays = find_crlf-append buffered more f in
    let e' : find_crlf (buffered ++ more) ≡ some n = ap find_crlf whole_of ∙ e in
    let z : n ≡ m = ground (arith, e', stays.0) in
    rw (← whole_of) (
      rw z (
        sym (take-append m buffered more (omega (arith, stays.1))),
        sym (drop-append (m + 2) buffered more stays.1),
      ))

pub read_line-Takes :
    (incoming : List Read) (buffered all : Text) {n : ℕ}
    → IsWhole incoming
    → buffered ++ joined incoming ≡ all
    → find_crlf all ≡ some n
    → Takes (take n all) (drop (n + 2) all) (read_line incoming buffered)
unfolding read_line line_or
read_line-Takes [] buffered all {n} whole whole_of e =
    let same = sym (append_nil buffered) ∙ whole_of in
    let at_end : find_crlf buffered ≡ some n = ap find_crlf same ∙ e in
    rw at_end (ap (take n) same, tt, append_nil (drop (n + 2) buffered) ∙ ap (drop (n + 2)) same)
read_line-Takes (breaks ∷ incoming) buffered all whole whole_of e = absurd whole
read_line-Takes (arrives b bs ∷ incoming) buffered all {n} whole whole_of e =
    elim (Option-cases (find_crlf buffered)) [
      | inl f ↦ rw f (
          read_line-Takes incoming (buffered ++ (b ∷ bs)) all whole
            (append_assoc buffered (b ∷ bs) (joined incoming) ∙ whole_of) e)
      | inr (m, f) ↦ rw f (
          let (taken, left) = found_early buffered (b ∷ bs ++ joined incoming) all whole_of f e in
          (taken, whole, left))
    ]

pub ensure_buffered_bytes-Takes :
    (count : ℕ) (incoming : List Read) (buffered all : Text)
    → IsWhole incoming
    → buffered ++ joined incoming ≡ all
    → count ≤ length all
    → Takes (take count all) (drop count all) (ensure_buffered_bytes count incoming buffered)
unfolding ensure_buffered_bytes bytes_or
ensure_buffered_bytes-Takes count [] buffered all whole whole_of h =
    let same = sym (append_nil buffered) ∙ whole_of in
    let there : leb count (length buffered) ≡ true = rw same (le→leb count (length all) h) in
    rw there (ap (take count) same, tt, append_nil (drop count buffered) ∙ ap (drop count) same)
ensure_buffered_bytes-Takes count (breaks ∷ incoming) buffered all whole whole_of h = absurd whole
ensure_buffered_bytes-Takes count (arrives b bs ∷ incoming) buffered all whole whole_of h =
    elim (Bool-cases (leb count (length buffered))) [
      | inl t ↦
          let enough : count ≤ length buffered = ground (arith, t) in
          rw t (
            rw (← whole_of) (
              sym (take-append count buffered (b ∷ bs ++ joined incoming) enough),
              whole,
              sym (drop-append count buffered (b ∷ bs ++ joined incoming) enough),
            ))
      | inr t ↦ rw t (
          ensure_buffered_bytes-Takes count incoming (buffered ++ (b ∷ bs)) all whole
            (append_assoc buffered (b ∷ bs) (joined incoming) ∙ whole_of) h)
    ]
