-- ===== src/Mqtt/Codec/VarInt/RoundTrip.antt =====
-- `decode_variable_int` reads back what `encode_variable_int` wrote.
use pd_edge.Mqtt.Codec.{CodecError}
use pd_edge.Common.{
  length-append, ◌⊎◌, ◌≢◌, ◌↔◌, none, Option, [], sym, refl, ℕ, zero, suc, ◌+◌, ◌*◌, ◌/◌, ◌%◌, ◌^◌,
  ◌≤◌, ◌<◌, ◌≡◌, ap, ◌∙◌, List, ◌∷◌, ◌++◌, some, length, arith, Bool-cases, inl, inr, ltb,
}
use pd_edge.Common.Outcome.{Outcome, err, panic, Ensures-ok, ok}
use pd_edge.Mqtt.Codec.VarInt.{
  encode_variable_int, max_variable_int, decode_loop, decode_variable_int,
}
use pd_edge.Mqtt.Codec.VarInt.Groups.{encode_variable_int-groups, length-groups-le_iff, groups}
use pd_edge.Mqtt.Codec.VarInt.Streaming.{
  Takes, decode_variable_int-append, decode_variable_int-Takes,
}
use mathlib.Core.List.{append-nil}
use pd_edge.Common.Bytes.{low_seven, top_bit}
use native.Mathlib.Nat.{div-add-mod}

last_group :
    (rounds g i m v : ℕ) (rest : List ℕ)
    → g < 128
    → decode_loop (suc rounds) (g ∷ rest) i m v ≡ some (v + g * m, i + 1)
unfolding decode_loop
last_group rounds g i m v rest h = ground (arith, low_seven g, top_bit g)

inner_group :
    (rounds g i m v : ℕ) (rest : List ℕ)
    → g < 128
    → decode_loop (suc rounds) ((g + 128) ∷ rest) i m v
      ≡ decode_loop rounds rest (i + 1) (m * 128) (v + g * m)
unfolding decode_loop
inner_group rounds g i m v rest h = ground (arith, low_seven (g + 128), top_bit (g + 128))

split_value : (value m : ℕ) → value % 128 * m + value / 128 * (m * 128) ≡ value * m
split_value value m = omega (arith, ap (λ (t : ℕ). t * m) (div-add-mod value 128))

decode_loop-groups :
    (k value i m v : ℕ) (rest : List ℕ)
    → value < 128 ^ suc k
    → decode_loop (suc k) (groups k value ++ rest) i m v
      ≡ some (v + value * m, i + length (groups k value))
unfolding groups
decode_loop-groups zero value i m v rest h = last_group zero value i m v rest (omega arith)
decode_loop-groups (suc k) value i m v rest h = elim (Bool-cases (ltb value 128)) [
  | inl last ↦ rw last (last_group (suc k) value i m v rest (ground arith))
  | inr inner ↦ rw inner (
      inner_group (suc k) (value % 128) i m v (groups k (value / 128) ++ rest) (omega arith)
      ∙ decode_loop-groups k (value / 128) (i + 1) (m * 128) (v + value % 128 * m) rest
          (omega arith)
      ∙ ground (arith, split_value value m))
]

pub decode_variable_int-groups :
    (value : ℕ) (rest : List ℕ)
    → value ≤ max_variable_int
    → decode_variable_int (groups 3 value ++ rest) ≡ ok (some (value, length (groups 3 value)))
unfolding decode_variable_int
decode_variable_int-groups value rest h =
    ground (arith, decode_loop-groups 3 value 0 1 0 rest (omega arith))

encode_variable_int_cases :
    (value : ℕ) {bytes : List ℕ}
    → encode_variable_int value ≡ ok bytes
    → (value ≤ max_variable_int) × (bytes ≡ groups 3 value)
encode_variable_int_cases value {bytes} e = elim (Bool-cases (ltb max_variable_int value)) [
  | inl long ↦ absurd (unfold encode_variable_int in ground (arith, long))
  | inr fits ↦
      let small : value ≤ max_variable_int = ground arith in
      (small, ground (arith, encode_variable_int-groups value small))
]

-- `decode_variable_int` reads back what `encode_variable_int` wrote, takes exactly its bytes, and
-- does not look at what follows them.
pub decode_variable_int-encode_variable_int :
    (value : ℕ) (rest : List ℕ) {bytes : List ℕ}
    → encode_variable_int value ≡ ok bytes
    → decode_variable_int (bytes ++ rest) ≡ ok (some (value, length bytes))
decode_variable_int-encode_variable_int value rest e =
    let (small, written) = encode_variable_int_cases value e in
    rw written (decode_variable_int-groups value rest small)

-- On a proper prefix of what `encode_variable_int` wrote, `decode_variable_int` asks for more input.
-- Any other answer would stand for the whole, which decodes to its last byte.
pub decode_variable_int_prefix :
    (value x : ℕ) (front back : List ℕ)
    → encode_variable_int value ≡ ok (front ++ (x ∷ back))
    → decode_variable_int front ≡ ok none
decode_variable_int_prefix value x front back e = elim (answers (decode_variable_int front)) [
  | inl more ↦ more
  | inr final ↦
      let whole : decode_variable_int (front ++ (x ∷ back))
          ≡ ok (some (value, length (front ++ (x ∷ back)))) =
        rw append-nil at (decode_variable_int-encode_variable_int value [] e) in
      let early = sym (decode_variable_int-append front (x ∷ back) final) ∙ whole in
      let bound : Takes front (some (value, length (front ++ (x ∷ back)))) =
        Ensures-ok (Takes front) (decode_variable_int front) (decode_variable_int-Takes front)
          early in
      absurd (omega (arith, bound.2, length-append front (x ∷ back)))
]
  where
    answers : (m : Outcome CodecError (Option (ℕ × ℕ))) → (m ≡ ok none) ⊎ (m ≢ ok none)
    answers (ok none) = inl refl
    answers (ok (some r)) = inr (λ p. cc)
    answers (err x) = inr (λ p. cc)
    answers panic = inr (λ p. cc)

-- The encoding is the shortest: it has at most `n` bytes exactly for the values below 128 ^ n.
pub length-encode_variable_int :
    (value n : ℕ) {bytes : List ℕ}
    → 1 ≤ n
    → n ≤ 4
    → encode_variable_int value ≡ ok bytes
    → (length bytes ≤ n) ↔ (value < 128 ^ n)
length-encode_variable_int value n {bytes} lo hi e =
    let (small, written) = encode_variable_int_cases value e in
    rw written (length-groups-le_iff 3 value n lo (omega arith) (omega arith))
