-- ===== src/Http/ByteStream/Pulling.antt =====
-- body_io.rs: what pulling frames does to a stream.
use pd_edge.Common.{
  ◌≤◌, List, [], ◌∷◌, ◌++◌, Option, none, some, Bool, true, false, length, ◌≡◌, refl, sym, ◌∙◌,
  arith, Bool-cases, inl, inr, length-append,
}
use pd_edge.Common.Lists.{append_nil, append_assoc}
use pd_edge.Common.Bytes.{Text}
use pd_edge.Http.ByteStream.{
  eof_pull, BufferedByteStream, BodyFrame, data_frame, other_frame, frame_error,
  InboundRequestBodyState, Reading, done, failed, state_of, apply_pull, pull_frames, pull_body,
  pull_while,
}

-- The bytes of the frames.
abbrev pub joined : List BodyFrame → Text
joined [] = []
joined (data_frame bytes ∷ frames) = bytes ++ joined frames
joined (other_frame ∷ frames) = joined frames
joined (frame_error ∷ frames) = joined frames

abbrev pub IsSound : List BodyFrame → Type 0
IsSound [] = Unit
IsSound (data_frame bytes ∷ frames) = IsSound frames
IsSound (other_frame ∷ frames) = IsSound frames
IsSound (frame_error ∷ frames) = ⊥

-- The whole body: what was buffered, and what is still to come.
abbrev pub IsViewOf : Text → Option (List BodyFrame) → BufferedByteStream → Type 0
IsViewOf whole none s = s.buffered ≡ whole
IsViewOf whole (some frames) s =
    (s.buffered ++ joined frames ≡ whole) × IsSound frames × (s.eof ≡ false)

-- The pulls that a loop makes leave the whole as it is, the offset where it is, and nothing to be done.
abbrev pub Pulled : (BufferedByteStream → Bool) → Text → BufferedByteStream → Reading Unit → Type 0
Pulled needs whole s (done u t) =
    IsViewOf whole t.body t.stream
    × (t.stream.read_offset ≡ s.read_offset)
    × (length s.buffered ≤ length t.stream.buffered)
    × (needs t.stream ≡ false)
Pulled needs whole s (failed t) = ⊥

Pulled-mono :
    (needs : BufferedByteStream → Bool) (whole : Text) (r s : BufferedByteStream) (o : Reading Unit)
    → s.read_offset ≡ r.read_offset
    → length r.buffered ≤ length s.buffered
    → Pulled needs whole s o
    → Pulled needs whole r o
Pulled-mono needs whole r s (done u t) e h (v, offset, longer, idle) =
    (v, offset ∙ e, omega arith, idle)
Pulled-mono needs whole r s (failed t) e h k = k

-- A loop is done at the end of the body.
module _ (needs : BufferedByteStream → Bool)
    (until_eof : (s : BufferedByteStream) → s.eof ≡ true → needs s ≡ false) where
  at_the_end :
      (whole : Text) (s : BufferedByteStream)
      → s.buffered ≡ whole
      → Pulled needs whole s (done tt (state_of none (apply_pull eof_pull s)))
  unfolding apply_pull
  at_the_end whole s e = (e, refl, omega arith, until_eof (record s { eof = true }) refl)

  pull_frames-Pulled :
      (whole : Text) (frames : List BodyFrame) (s : BufferedByteStream)
      → IsViewOf whole (some frames) s
      → Pulled needs whole s (pull_frames needs frames s)
  unfolding pull_frames apply_pull
  pull_frames-Pulled whole [] s v = elim (Bool-cases (needs s)) [
    | inl e ↦ rw e (at_the_end whole s (sym (append_nil s.buffered) ∙ v.0))
    | inr e ↦ rw e (v, refl, omega arith, e)
  ]
  pull_frames-Pulled whole (data_frame bytes ∷ frames) s (w, sound, going) =
      elim (Bool-cases (needs s)) [
        | inl e ↦
            let t : BufferedByteStream = record s { buffered = s.buffered ++ bytes } in
            let k = length-append s.buffered bytes in
            rw e (
              Pulled-mono needs whole s t (pull_frames needs frames t) refl (omega (arith, k)) (
                pull_frames-Pulled whole frames t
                  (append_assoc s.buffered bytes (joined frames) ∙ w, sound, going)))
        | inr e ↦ rw e ((w, sound, going), refl, omega arith, e)
      ]
  pull_frames-Pulled whole (other_frame ∷ frames) s v = elim (Bool-cases (needs s)) [
    | inl e ↦ rw e (pull_frames-Pulled whole frames s v)
    | inr e ↦ rw e (v, refl, omega arith, e)
  ]
  pull_frames-Pulled whole (frame_error ∷ frames) s (w, sound, going) = absurd sound

  pub pull_while-Pulled :
      (whole : Text) (s : InboundRequestBodyState)
      → IsViewOf whole s.body s.stream
      → Pulled needs whole s.stream (pull_while needs s)
  unfolding pull_while pull_body
  pull_while-Pulled whole s v = at_body s.body v
    where
      at_body :
          (body : Option (List BodyFrame))
          → IsViewOf whole body s.stream
          → Pulled needs whole s.stream (pull_body needs body s.stream)
      at_body none w = elim (Bool-cases (needs s.stream)) [
        | inl e ↦ rw e (at_the_end whole s.stream w)
        | inr e ↦ rw e (w, refl, omega arith, e)
      ]
      at_body (some frames) w = pull_frames-Pulled whole frames s.stream w
