-- ===== src/Http/ByteStream/Pieces.antt =====
-- body_io.rs: `read_next_chunk` gives pieces of the body, in order.
use pd_edge.Common.{
  ℕ, ◌+◌, ◌-◌, ◌≤◌, ◌<◌, List, ◌++◌, Option, false, leb, ◌==◌, length, take, drop, ◌≡◌, refl, sym,
  ap, ◌∙◌, arith, Bool-cases, inl, inr, ◌⊎◌, take-append, drop-append, length-take, length-drop,
}
use Prim.Native.Nat.{min}
use mathlib.Core.Path.{subst}
use pd_edge.Common.Bytes.{Text}
use pd_edge.Http.ByteStream.{
  BufferedByteStream, BodyFrame, InboundRequestBodyState, pull_while, lacks_byte, next_chunk,
  read_next_chunk,
}
use pd_edge.Http.ByteStream.Pulling.{IsViewOf, pull_while-Pulled}
use pd_edge.Http.ByteStream.Refines.{
  IsBodyOf, Gives, buffered_first, moved, Behind, then_read-Gives, until_eof-lacks_byte, at_end,
}

-- A piece of the body, of at most `max_bytes`, and no piece only where none is.
abbrev pub IsPieceAt : ℕ → Text → ℕ → Text → ℕ → Type 0
IsPieceAt max_bytes whole position bytes position' =
    (position' ≡ position + length bytes)
    × (bytes ≡ take (length bytes) (drop position whole))
    × (length bytes ≤ max_bytes)
    × ((max_bytes ≡ 0) ⊎ ((position ≡ length whole) ⊎ (0 < length bytes)))

-- A piece of the buffer is a piece of the body.
piece :
    (off len n : ℕ) (whole buffered more : Text)
    → buffered ++ more ≡ whole
    → off ≤ length buffered
    → n ≤ length buffered - off
    → (length (take n (drop off buffered)) ≡ n)
      × (take n (drop off buffered) ≡ take n (drop off whole))
piece off len n whole buffered more e h k =
    let d = length-drop off buffered in
    let t = length-take n (drop off buffered) in
    (
      omega (arith, d, t, k),
      sym (take-append n (drop off buffered) more (omega (arith, d, k)))
          ∙ ap (take n) (sym (drop-append off buffered more h) ∙ ap (drop off) e),
    )

chunk_behind :
    (max_bytes : ℕ) (whole : Text) (body : Option (List BodyFrame)) (t : BufferedByteStream)
    → IsViewOf whole body t
    → t.read_offset ≤ length t.buffered
    → lacks_byte t ≡ false
    → IsPieceAt max_bytes whole t.read_offset
        (next_chunk max_bytes t).0
        (next_chunk max_bytes t).1.read_offset
      × IsViewOf whole body (next_chunk max_bytes t).1
      × ((next_chunk max_bytes t).1.read_offset ≤ length (next_chunk max_bytes t).1.buffered)
unfolding next_chunk
chunk_behind max_bytes whole body t w inside idle =
    elim (Bool-cases (leb (length t.buffered) t.read_offset)) [
      | inl e ↦
          let (end, all) = at_end whole body t w idle e in
          let n : length t.buffered ≡ length whole = ap length all in
          rw e
            ((omega arith, refl, omega arith, inr (inl (ground (arith, e, n, inside)))), w, inside)
      | inr e ↦
          let end = min (t.read_offset + max_bytes) (length t.buffered) in
          let (more, first) = buffered_first whole body t w in
          let (l, p) =
            piece t.read_offset 0 (end - t.read_offset) whole t.buffered more first inside
              (omega arith) in
          let before : t.read_offset < length t.buffered = ground (arith, e) in
          rw e (
            (
              omega (arith, l, inside),
              p ∙ ap (λ n. take n (drop t.read_offset whole)) (sym l),
              omega (arith, l),
              elim (Bool-cases (max_bytes == 0)) [
                | inl z ↦ inl (ground (arith, z))
                | inr z ↦
                    let positive : 0 < max_bytes = ground (arith, z) in
                    inr (inr (omega (arith, l, before, positive)))
              ],
            ),
            moved whole body t end w,
            omega arith,
          )
    ]

pub read_next_chunk-Gives :
    (max_bytes : ℕ) (whole : Text) (s : InboundRequestBodyState)
    → IsBodyOf whole s
    → Gives (IsPieceAt max_bytes whole s.stream.read_offset) whole (read_next_chunk max_bytes s)
unfolding read_next_chunk Behind
read_next_chunk-Gives max_bytes whole s (v, h) =
    then_read-Gives lacks_byte _ whole s.stream (pull_while lacks_byte s) (next_chunk max_bytes)
      (pull_while-Pulled lacks_byte until_eof-lacks_byte whole s v)
      (λ body t w offset longer idle.
        let (p, u, b) =
          chunk_behind max_bytes whole body t w (omega (arith, h, offset, longer)) idle in
        (
          subst
              (λ position.
                IsPieceAt max_bytes whole position (next_chunk max_bytes t).0
                  (next_chunk max_bytes t).1.read_offset)
              offset p,
          u,
          b,
        ))
