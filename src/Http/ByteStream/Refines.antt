-- ===== src/Http/ByteStream/Refines.antt =====
-- body_io.rs: however its bytes are cut into frames, a body reads as its bytes with a position in them.
use pd_edge.Common.{
  ℕ, ◌+◌, ◌≤◌, List, [], ◌++◌, Option, none, some, Bool, true, false, leb, length, ◌≡◌, refl, sym,
  ap, ◌∙◌, arith, Bool-cases, inl, inr, append_nil, length-append,
}
use pd_edge.Common.Bytes.{Text}
use pd_edge.Http.ByteStream.{
  BufferedByteStream, BodyFrame, InboundRequestBodyState, Reading, done, failed, pull_while,
  then_read, lacks_byte, lacks_end, read_all, read_all_and_consume, eof_reached,
}
use pd_edge.Http.ByteStream.Pulling.{IsViewOf, Pulled, pull_while-Pulled}

-- A state of a body with these bytes.
abbrev pub IsBodyOf : Text → InboundRequestBodyState → Type 0
IsBodyOf whole s =
    IsViewOf whole s.body s.stream × (s.stream.read_offset ≤ length s.stream.buffered)

abbrev pub Gives : {A : Type 0} → (A → ℕ → Type 0) → Text → Reading A → Type 0
Gives P whole (done answer t) = P answer t.stream.read_offset × IsBodyOf whole t
Gives P whole (failed t) = ⊥

-- The bytes that are buffered are the first ones.
pub buffered_first :
    (whole : Text) (body : Option (List BodyFrame)) (s : BufferedByteStream)
    → IsViewOf whole body s
    → (more : Text) × (s.buffered ++ more ≡ whole)
buffered_first whole none s v = ([], append_nil s.buffered ∙ v)
buffered_first whole (some frames) s v = (_, v.0)

pub buffered_whole :
    (whole : Text) (body : Option (List BodyFrame)) (s : BufferedByteStream)
    → IsViewOf whole body s
    → s.eof ≡ true
    → s.buffered ≡ whole
buffered_whole whole none s v e = v
buffered_whole whole (some frames) s v e = absurd (ground (arith, e, v.2))

pub moved :
    (whole : Text) (body : Option (List BodyFrame)) (s : BufferedByteStream) (n : ℕ)
    → IsViewOf whole body s
    → IsViewOf whole body (record s { read_offset = n })
moved whole none s n v = v
moved whole (some frames) s n v = v

-- A read behind its pulls.
unfoldable pub Behind :
    {A : Type 0}
    → (BufferedByteStream → Bool)
    → (A → ℕ → Type 0)
    → Text
    → BufferedByteStream
    → (BufferedByteStream → A × BufferedByteStream)
    → Type 0
Behind needs P whole s read =
    (body : Option (List BodyFrame)) (t : BufferedByteStream)
    → IsViewOf whole body t
    → t.read_offset ≡ s.read_offset
    → length s.buffered ≤ length t.buffered
    → needs t ≡ false
    → P (read t).0 (read t).1.read_offset
      × IsViewOf whole body (read t).1
      × ((read t).1.read_offset ≤ length (read t).1.buffered)

pub then_read-Gives :
    {A : Type 0} (needs : BufferedByteStream → Bool) (P : A → ℕ → Type 0) (whole : Text)
    (s : BufferedByteStream) (o : Reading Unit) (read : BufferedByteStream → A × BufferedByteStream)
    → Pulled needs whole s o
    → Behind needs P whole s read
    → Gives P whole (then_read o read)
unfolding then_read Behind
then_read-Gives needs P whole s (done u t) read (v, offset, longer, idle) h =
    let (p, w, b) = h t.body t.stream v offset longer idle in (p, (w, b))
then_read-Gives needs P whole s (failed t) read k h = k

pub read_all-Gives :
    (whole : Text) (s : InboundRequestBodyState)
    → IsBodyOf whole s
    → Gives (λ body position. (body ≡ whole) × (position ≡ s.stream.read_offset)) whole (read_all s)
unfolding read_all Behind lacks_end
read_all-Gives whole s (v, h) =
    then_read-Gives lacks_end _ whole s.stream (pull_while lacks_end s) _
      (pull_while-Pulled lacks_end (λ t e. rw e refl) whole s v)
      (λ body t w offset longer idle. (
        (buffered_whole whole body t w (ground (arith, idle)), offset),
        w,
        omega (arith, h, offset, longer),
      ))

pub read_all_and_consume-Gives :
    (whole : Text) (s : InboundRequestBodyState)
    → IsBodyOf whole s
    → Gives
        (λ body position. (body ≡ whole) × (position ≡ length whole))
        whole
        (read_all_and_consume s)
unfolding read_all_and_consume Behind lacks_end
read_all_and_consume-Gives whole s (v, h) =
    then_read-Gives lacks_end _ whole s.stream (pull_while lacks_end s) _
      (pull_while-Pulled lacks_end (λ t e. rw e refl) whole s v)
      (λ body t w offset longer idle.
        let b = buffered_whole whole body t w (ground (arith, idle)) in
        ((b, ap length b), moved whole body t (length t.buffered) w, omega arith))

pub until_eof-lacks_byte : (s : BufferedByteStream) → s.eof ≡ true → lacks_byte s ≡ false
unfolding lacks_byte
until_eof-lacks_byte s e = ground (arith, e)

-- With nothing more to be pulled for a byte, a position at the end of the buffer is the end of the body.
pub at_end :
    (whole : Text) (body : Option (List BodyFrame)) (t : BufferedByteStream)
    → IsViewOf whole body t
    → lacks_byte t ≡ false
    → leb (length t.buffered) t.read_offset ≡ true
    → (t.eof ≡ true) × (t.buffered ≡ whole)
unfolding lacks_byte
at_end whole body t v idle h =
    let e : t.eof ≡ true = ground (arith, idle, h) in (e, buffered_whole whole body t v e)

pub eof_reached-Gives :
    (whole : Text) (s : InboundRequestBodyState)
    → IsBodyOf whole s
    → Gives
        (λ end position.
          (end ≡ leb (length whole) s.stream.read_offset) × (position ≡ s.stream.read_offset))
        whole
        (eof_reached s)
unfolding eof_reached Behind
eof_reached-Gives whole s (v, h) =
    then_read-Gives lacks_byte _ whole s.stream (pull_while lacks_byte s) _
      (pull_while-Pulled lacks_byte until_eof-lacks_byte whole s v)
      (λ body t w offset longer idle.
        let inside : t.read_offset ≤ length t.buffered = omega (arith, h, offset, longer) in
        let (more, first) = buffered_first whole body t w in
        let k = length-append t.buffered more in
        let l : length whole ≡ length t.buffered + length more = ap length (sym first) ∙ k in
        (
          elim (Bool-cases (leb (length t.buffered) t.read_offset)) [
            | inl e ↦
                let (end, all) = at_end whole body t w idle e in
                let n : length t.buffered ≡ length whole = ap length all in
                (ground (arith, end, e, n, offset), offset)
            | inr e ↦ (ground (arith, e, l, offset), offset)
          ],
          w,
          inside,
        ))
