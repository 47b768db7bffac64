-- ===== src/Mqtt/Codec/VarInt/Streaming.antt =====
-- `decode_variable_int` on a prefix of the input, and the bounds of what it returns.
use pd_edge.Common.{
  ℕ, zero, suc, ◌+◌, ◌*◌, ◌≤◌, ◌<◌, ◌≡◌, ◌≢◌, refl, List, [], ◌∷◌, ◌++◌, Option, none, some, length,
  length-append, arith, Option-cases, inl, inr, bit_and,
}
use pd_edge.Common.Outcome.{ok, Ensures}
use pd_edge.Mqtt.Codec.VarInt.{decode_loop, decode_variable_int}

decode_loop-append_some :
    (rounds : ℕ) (bytes more : List ℕ) (i m v : ℕ) (r : ℕ × ℕ)
    → decode_loop rounds bytes i m v ≡ some r
    → decode_loop rounds (bytes ++ more) i m v ≡ some r
unfolding decode_loop
decode_loop-append_some zero bytes more i m v r e = e
decode_loop-append_some (suc rounds) [] more i m v r e = cc
decode_loop-append_some (suc rounds) (b ∷ bytes) more i m v r e =
    ground (
      arith,
      decode_loop-append_some rounds bytes more (i + 1) (m * 128) (v + bit_and b 0x7f * m) r,
    )

decode_loop-append_full :
    (rounds : ℕ) (bytes more : List ℕ) (i m v : ℕ)
    → rounds ≤ length bytes
    → decode_loop rounds (bytes ++ more) i m v ≡ decode_loop rounds bytes i m v
unfolding decode_loop
decode_loop-append_full zero bytes more i m v h = refl
decode_loop-append_full (suc rounds) [] more i m v h = absurd (omega arith)
decode_loop-append_full (suc rounds) (b ∷ bytes) more i m v h = ground (
  arith,
  decode_loop-append_full rounds bytes more (i + 1) (m * 128) (v + bit_and b 0x7f * m)
      (omega arith),
)

-- An answer other than "more input" is final: bytes that arrive later do not change it.
pub decode_variable_int-append :
    (bytes more : List ℕ)
    → decode_variable_int bytes ≢ ok none
    → decode_variable_int (bytes ++ more) ≡ decode_variable_int bytes
unfolding decode_variable_int
decode_variable_int-append bytes more h = elim (Option-cases (decode_loop 4 bytes 0 1 0)) [
  | inr (r, e) ↦ ground (arith, decode_loop-append_some 4 bytes more 0 1 0 r e)
  | inl e ↦ ground (arith, decode_loop-append_full 4 bytes more 0 1 0, length-append bytes more)
]

decode_loop_takes :
    (rounds : ℕ) (bytes : List ℕ) (i m v w j : ℕ)
    → decode_loop rounds bytes i m v ≡ some (w, j)
    → (i < j) × (j ≤ i + rounds) × (j ≤ i + length bytes)
unfolding decode_loop
decode_loop_takes zero bytes i m v w j e = absurd (ground arith)
decode_loop_takes (suc rounds) [] i m v w j e = absurd (ground arith)
decode_loop_takes (suc rounds) (b ∷ bytes) i m v w j e =
    ground (arith, decode_loop_takes rounds bytes (i + 1) (m * 128) (v + bit_and b 0x7f * m) w j)

-- Where an integer was read, it took 1 to 4 of the bytes.
abbrev pub Takes : List ℕ → Option (ℕ × ℕ) → Type 0
Takes bytes none = Unit
Takes bytes (some (value, taken)) = (1 ≤ taken) × (taken ≤ 4) × (taken ≤ length bytes)

pub decode_variable_int-Takes : (bytes : List ℕ) → Ensures (Takes bytes) (decode_variable_int bytes)
unfolding decode_variable_int
decode_variable_int-Takes bytes = elim (Option-cases (decode_loop 4 bytes 0 1 0)) [
  | inr ((w, j), e) ↦ ground (arith, decode_loop_takes 4 bytes 0 1 0 w j e)
  | inl e ↦ ground arith
]
