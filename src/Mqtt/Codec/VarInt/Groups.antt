-- ===== src/Mqtt/Codec/VarInt/Groups.antt =====
-- What `encode_variable_int` writes: the groups of seven bits of the value, lowest first.
use pd_edge.Common.{
  false, ℕ, zero, suc, ◌+◌, ◌/◌, ◌%◌, ◌^◌, ◌≤◌, ◌<◌, ◌≡◌, ap, List, [], ◌∷◌, ◌++◌, length, All, ltb,
  if◌then◌else◌, arith, ◌↔◌, Bool-cases, inl, inr,
}
use native.Mathlib.Nat.{pow-suc}
use pd_edge.Common.Outcome.{ok}
use pd_edge.Common.Bytes.{IsByte, set_top_bit}
use pd_edge.Mqtt.Codec.VarInt.{lt_wf, max_variable_int, encode_loop, encode_variable_int}
use mathlib.Core.List.{append_assoc}
use mathlib.Core.WellFounded.{Acc}

-- The groups of a value below 128 ^ (k + 1).
unfoldable pub groups : ℕ → ℕ → List ℕ
groups zero value = value ∷ []
groups (suc k) value =
    let rest = groups k (value / 128) in
    if ltb value 128 then value ∷ [] else (value % 128 + 128) ∷ rest

encode_loop-groups :
    (k : ℕ) (encoded : List ℕ) (value : ℕ) (w : Acc ◌<◌ value)
    → value < 128 ^ suc k
    → encode_loop encoded value w ≡ encoded ++ groups k value
unfolding encode_loop groups
encode_loop-groups zero encoded value (Acc.intro _ smaller) h = ground arith
encode_loop-groups (suc k) encoded value (Acc.intro _ smaller) h =
    let head : List ℕ = (value % 128 + 128) ∷ [] in
    grind (
      arith,
      set_top_bit (value % 128),
      λ (w : Acc ◌<◌ (value / 128)).
          encode_loop-groups k (encoded ++ head) (value / 128) w (omega arith),
      append_assoc encoded head (groups k (value / 128)),
    )

pub encode_variable_int-groups :
    (value : ℕ) → value ≤ max_variable_int → encode_variable_int value ≡ ok (groups 3 value)
unfolding encode_variable_int
encode_variable_int-groups value h =
    let fits : ltb max_variable_int value ≡ false = ground arith in
    rw fits (ap ok (encode_loop-groups 3 [] value (lt_wf.apply value) (omega arith)))

pub groups-IsByte : (k value : ℕ) → value < 128 ^ suc k → All IsByte (groups k value)
unfolding groups
groups-IsByte zero value h = omega arith
groups-IsByte (suc k) value h = ground (arith, groups-IsByte k (value / 128) (omega arith))

pub length-groups :
    (k value : ℕ) → (1 ≤ length (groups k value)) × (length (groups k value) ≤ k + 1)
unfolding groups
length-groups zero value = omega arith
length-groups (suc k) value = ground (arith, length-groups k (value / 128))

power_pos : (n : ℕ) → 1 ≤ 128 ^ n
power_pos zero = omega arith
power_pos (suc n) = omega (arith, pow-suc 128 n, power_pos n)

-- No shorter list would do.
pub length-groups-le_iff :
    (k value n : ℕ)
    → 1 ≤ n
    → n ≤ k + 1
    → value < 128 ^ suc k
    → (length (groups k value) ≤ n) ↔ (value < 128 ^ n)
unfolding groups
length-groups-le_iff k value zero lo hi h = absurd (omega arith)
length-groups-le_iff zero value (suc zero) lo hi h = (λ _. omega arith, λ _. omega arith)
length-groups-le_iff zero value (suc (suc n)) lo hi h = absurd (omega arith)
length-groups-le_iff (suc k) value (suc zero) lo hi h = elim (Bool-cases (ltb value 128)) [
  | inl last ↦ rw last (λ _. ground arith, λ _. omega arith)
  | inr inner ↦
      rw inner (
        λ le. absurd (omega (arith, (length-groups k (value / 128)).0)),
        λ lt. absurd (ground arith),
      )
]
length-groups-le_iff (suc k) value (suc (suc n)) lo hi h = elim (Bool-cases (ltb value 128)) [
  | inl last ↦
      rw last (λ _. ground (arith, pow-suc 128 (suc n), power_pos (suc n)), λ _. omega arith)
  | inr inner ↦
      let rest =
        length-groups-le_iff k (value / 128) (suc n) (omega arith) (omega arith)
          (omega (arith, pow-suc 128 (suc k))) in
      let power = pow-suc 128 (suc n) in
      rw inner (
        λ le. omega (arith, power, rest.0 (omega arith)),
        λ lt. omega (arith, power, rest.1 (omega (arith, power))),
      )
]
