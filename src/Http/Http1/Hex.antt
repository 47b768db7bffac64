-- ===== src/Http/Http1/Hex.antt =====
-- http1_fast_path.rs: hexadecimal numbers, written by `append_chunk_prefix` and read by
-- `usize::from_str_radix(_, 16)`.
use pd_edge.Common.{
  ℕ, zero, suc, ◌+◌, ◌-◌, ◌*◌, ◌/◌, ◌%◌, ◌<◌, [], ◌∷◌, ◌++◌, Option, none, some, true, ◌&&◌, ltb,
  leb, ◌==◌, if◌then◌else◌, ◌≡◌, refl, sym, ap, ◌∙◌, arith, Bool-cases, inl, inr,
}
use pd_edge.Common.Bytes.{Text}

-- The number of values that a `usize` of 64 bits has.
abbrev pub usize_values : ℕ
usize_values = 18446744073709551616

-- `char::to_digit(16)`
unfoldable pub hex_digit : ℕ → Option ℕ
hex_digit b =
    if leb 48 b && leb b 57
    then some (b - 48)
    else if leb 65 b && leb b 70
    then some (b - 55)
    else if leb 97 b && leb b 102
    then some (b - 87)
    else none

-- `value * 16 + digit` within a `usize`.
unfoldable pub add_digit : ℕ → ℕ → Option ℕ
add_digit value digit =
    let sum = value * 16 + digit in if ltb sum usize_values then some sum else none

unfoldable pub digits_from : ℕ → Text → Option ℕ
digits_from value [] = some value
digits_from value (b ∷ bs) = elim (hex_digit b) [
  | none ↦ none
  | some digit ↦ elim (add_digit value digit) [ none ↦ none | some sum ↦ digits_from sum bs ]
]

-- `usize::from_str_radix(value, 16).ok()`: one leading plus sign is allowed.
unfoldable pub from_str_radix : Text → Option ℕ
from_str_radix [] = none
from_str_radix (b ∷ []) = if b == 43 then none else digits_from 0 (b ∷ [])
from_str_radix (b ∷ c ∷ bs) = if b == 43 then digits_from 0 (c ∷ bs) else digits_from 0 (b ∷ c ∷ bs)

-- `b'0' + digit` or `b'A' + (digit - 10)`
unfoldable pub digit_char : ℕ → ℕ
digit_char digit = if leb digit 9 then 48 + digit else 65 + (digit - 10)

-- The digits from `index` down: `value & 0x0f` is `value % 16`, `value >>= 4` is `value / 16`.
unfoldable pub prefix_digits : ℕ → ℕ → Text → Text
prefix_digits zero value digits = digits
prefix_digits (suc index) value digits =
    let written = digit_char (value % 16) ∷ digits in
    let longer = prefix_digits index (value / 16) written in
    if value / 16 == 0 then written else longer

unfoldable pub append_chunk_prefix : ℕ → Text
append_chunk_prefix len = prefix_digits 16 len [] ++ (13 ∷ 10 ∷ [])

-- 16 ^ digits
pub power : ℕ → ℕ
power zero = 1
power (suc digits) = 16 * power digits

pub power_usize : power 16 ≡ usize_values
unfolding power
power_usize = refl

hex_digit-digit_char : (d : ℕ) → d < 16 → hex_digit (digit_char d) ≡ some d
unfolding hex_digit digit_char
hex_digit-digit_char d h = ground arith

digits_from-at :
    (value b digit : ℕ) (bs : Text)
    → hex_digit b ≡ some digit
    → value * 16 + digit < usize_values
    → digits_from value (b ∷ bs) ≡ digits_from (value * 16 + digit) bs
unfolding digits_from add_digit
digits_from-at value b digit bs e h =
    let f : ltb (value * 16 + digit) usize_values ≡ true = ground arith in
    rw (e, f, digits_from, add_digit) refl

-- Reading the digit that stands for `value % 16` makes `value / 16` the value again.
digits_from-digit_char :
    (value : ℕ) (bs : Text)
    → value < usize_values
    → digits_from (value / 16) (digit_char (value % 16) ∷ bs) ≡ digits_from value bs
digits_from-digit_char value bs h =
    let e : value / 16 * 16 + value % 16 ≡ value = omega arith in
    digits_from-at (value / 16) (digit_char (value % 16)) (value % 16) bs
      (hex_digit-digit_char (value % 16) (omega arith)) (omega arith)
    ∙ ap (λ n. digits_from n bs) e

last_digit :
    (value : ℕ) (bs : Text)
    → value < usize_values
    → value / 16 ≡ 0
    → digits_from 0 (digit_char (value % 16) ∷ bs) ≡ digits_from value bs
last_digit value bs h z =
    ap (λ n. digits_from n (digit_char (value % 16) ∷ bs)) (sym z)
    ∙ digits_from-digit_char value bs h

pub digits_from-prefix_digits :
    (index value : ℕ) (bs : Text)
    → value < usize_values
    → value < power (suc index)
    → digits_from 0 (prefix_digits (suc index) value bs) ≡ digits_from value bs
unfolding prefix_digits power
digits_from-prefix_digits zero value bs h p =
    let e : (value / 16 == 0) ≡ true = ground arith in
    rw e (last_digit value bs h (ground (arith, e)))
digits_from-prefix_digits (suc index) value bs h p = elim (Bool-cases (value / 16 == 0)) [
  | inl e ↦ rw e (last_digit value bs h (ground (arith, e)))
  | inr e ↦ rw e (
      digits_from-prefix_digits index (value / 16) (digit_char (value % 16) ∷ bs) (omega arith)
        (omega arith)
      ∙ digits_from-digit_char value bs h)
]
