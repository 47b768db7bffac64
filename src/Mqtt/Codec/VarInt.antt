-- ===== src/Mqtt/Codec/VarInt.antt =====
-- codec.rs: `encode_variable_int` and `decode_variable_int`. A `usize` does not wrap here: the
-- values stay below 2 ^ 28.
use pd_edge.Common.{
  ℕ, zero, suc, ◌+◌, ◌*◌, ◌/◌, ◌%◌, ◌<◌, List, [], ◌∷◌, ◌++◌, Option, none, some, length, ltb, leb,
  ◌==◌, if◌then◌else◌, arith, bit_and, bit_or,
}
use pd_edge.Common.Outcome.{Outcome, ok, err}
use pd_edge.Mqtt.Codec.{
  CodecError, remaining_length_exceeds_maximum, variable_length_exceeds_four_bytes,
}
use mathlib.Core.Logic.{dite}
use mathlib.Core.WellFounded.{Acc, WellFounded}
use native.Mathlib.Decide.{dec_lt}
pub mod Groups
pub mod Streaming
pub mod RoundTrip

Acc-below : (k n : ℕ) → n < k → Acc ◌<◌ n
Acc-below zero n h = elim h [ ]
Acc-below (suc k) n h = Acc.intro n (λ m hm. Acc-below k m (omega arith))

lt_wf : WellFounded ◌<◌
unfolding Acc-below
lt_wf = record { apply = λ n. Acc-below (suc n) n (omega arith) }

abbrev pub max_variable_int : ℕ
max_variable_int = 268435455

-- The `loop`: it ends when the value, divided by 128, is 0.
encode_loop : List ℕ → (value : ℕ) → Acc ◌<◌ value → List ℕ
encode_loop encoded value (Acc.intro _ smaller) =
    dite (dec_lt 0 (value / 128))
      (λ more.
        encode_loop (encoded ++ bit_or (value % 128) 0x80 ∷ []) (value / 128)
          (smaller _ (omega arith)))
      (λ _. encoded ++ value % 128 ∷ [])

unfoldable pub encode_variable_int : ℕ → Outcome CodecError (List ℕ)
unfolding encode_loop lt_wf dec_lt
encode_variable_int value =
    if ltb max_variable_int value
    then err (remaining_length_exceeds_maximum value)
    else ok (encode_loop [] value (lt_wf.apply value))

-- The `for` over at most four bytes: `rounds` are left, `index` counts them.
decode_loop : ℕ → List ℕ → (index multiplier value : ℕ) → Option (ℕ × ℕ)
decode_loop zero bytes index multiplier value = none
decode_loop (suc rounds) [] index multiplier value = none
decode_loop (suc rounds) (byte ∷ bytes) index multiplier value =
    let value' = value + bit_and byte 0x7f * multiplier in
    let rest = decode_loop rounds bytes (index + 1) (multiplier * 128) value' in
    if bit_and byte 0x80 == 0 then some (value', index + 1) else rest

-- The value and the bytes it takes; `none` asks for more input.
unfoldable pub decode_variable_int : List ℕ → Outcome CodecError (Option (ℕ × ℕ))
unfolding decode_loop
decode_variable_int bytes = elim (decode_loop 4 bytes 0 1 0) [
  | some found ↦ ok (some found)
  | none ↦ if leb 4 (length bytes) then err variable_length_exceeds_four_bytes else ok none
]
