-- ===== src/Http/Http1/ChunkSize/Digits.antt =====
-- http1_fast_path.rs: the size line that `append_chunk_prefix` writes is read back as the size.
use pd_edge.Common.{
  Bool-cases, ℕ, zero, suc, ◌/◌, ◌%◌, ◌<◌, ◌≤◌, [], ◌∷◌, some, Bool, true, false, ◌&&◌, ◌||◌, ltb,
  leb, ◌==◌, ◌≡◌, refl, ap, ◌∙◌, arith, inl, inr, All, length,
}
use pd_edge.Common.Bytes.{Text, is_utf8, is_utf8-ascii}
use pd_edge.Common.Whitespace.{space_length, trim_start_from, trim_end, trim}
use pd_edge.Http.Http1.Hex.{
  usize_values, power_usize, digit_char, digits_from, from_str_radix, prefix_digits,
  digits_from-prefix_digits,
}
use pd_edge.Http.Http1.ChunkSize.{before_semicolon, size_of, chunk_size}
use pd_edge.Http.Http1.Lines.Reading.{IsNotCr}

-- A digit in capitals.
abbrev pub is_digit : ℕ → Bool
is_digit b = leb 48 b && leb b 57 || leb 65 b && leb b 70

abbrev pub IsDigit : ℕ → Type 0
IsDigit b = is_digit b ≡ true

pub digit_char-IsDigit : (d : ℕ) → d < 16 → IsDigit (digit_char d)
unfolding digit_char
digit_char-IsDigit d h = ground arith

pub prefix_digits-IsDigit :
    (index value : ℕ) (bs : Text) → All IsDigit bs → All IsDigit (prefix_digits index value bs)
unfolding prefix_digits
prefix_digits-IsDigit zero value bs h = h
prefix_digits-IsDigit (suc index) value bs h =
    let first : All IsDigit (digit_char (value % 16) ∷ bs) =
      (digit_char-IsDigit (value % 16) (omega arith), h) in
    elim (Bool-cases (value / 16 == 0)) [
      | inl e ↦ rw e first
      | inr e ↦ rw e (prefix_digits-IsDigit index (value / 16) (digit_char (value % 16) ∷ bs) first)
    ]

pub space_length-digit : (b : ℕ) (bs : Text) → IsDigit b → space_length (b ∷ bs) ≡ 0
unfolding space_length
space_length-digit b [] h = ground (arith, h)
space_length-digit b (c ∷ []) h = ground (arith, h)
space_length-digit b (c ∷ d ∷ bs) h = ground (arith, h)

trim_start_from-digits : (bs : Text) → All IsDigit bs → trim_start_from 0 bs ≡ bs
unfolding trim_start_from
trim_start_from-digits [] h = refl
trim_start_from-digits (b ∷ bs) h = rw (space_length-digit b bs h.0, trim_start_from) refl

trim_end-digits : (bs : Text) → All IsDigit bs → trim_end bs ≡ bs
unfolding trim_end
trim_end-digits [] h = refl
trim_end-digits (b ∷ bs) h =
    rw (trim_start_from-digits (b ∷ bs) h) (ap (◌∷◌ b) (trim_end-digits bs h.1))

trim-digits : (bs : Text) → All IsDigit bs → trim bs ≡ bs
unfolding trim
trim-digits bs h = rw (trim_start_from-digits bs h) (trim_end-digits bs h)

before_semicolon-digits : (bs : Text) → All IsDigit bs → before_semicolon bs ≡ bs
unfolding before_semicolon
before_semicolon-digits [] h = refl
before_semicolon-digits (b ∷ bs) h =
    let e : (b == 59) ≡ false = ground (arith, h.0) in
    rw e (ap (◌∷◌ b) (before_semicolon-digits bs h.1))

pub no_cr_in_digits : (bs : Text) → All IsDigit bs → All IsNotCr bs
no_cr_in_digits [] h = tt
no_cr_in_digits (b ∷ bs) h = (ground (arith, h.0), no_cr_in_digits bs h.1)

is_utf8-digits : (bs : Text) → All IsDigit bs → is_utf8 bs ≡ true
is_utf8-digits bs h = is_utf8-ascii bs (ascii bs h)
  where
    ascii : (bs : Text) → All IsDigit bs → All (λ b. ltb b 128 ≡ true) bs
    ascii [] h = tt
    ascii (b ∷ bs) h = (ground (arith, h.0), ascii bs h.1)

from_str_radix-digits :
    (bs : Text) → All IsDigit bs → 0 < length bs → from_str_radix bs ≡ digits_from 0 bs
unfolding from_str_radix
from_str_radix-digits [] h k = absurd (omega arith)
from_str_radix-digits (b ∷ []) h k = let e : (b == 43) ≡ false = ground (arith, h.0) in rw e refl
from_str_radix-digits (b ∷ c ∷ bs) h k =
    let e : (b == 43) ≡ false = ground (arith, h.0) in rw e refl

length-prefix_digits :
    (index value : ℕ) (bs : Text) → length bs ≤ length (prefix_digits index value bs)
unfolding prefix_digits
length-prefix_digits zero value bs = omega arith
length-prefix_digits (suc index) value bs = elim (Bool-cases (value / 16 == 0)) [
  | inl e ↦ rw e (omega arith)
  | inr e ↦
      let longer = length-prefix_digits index (value / 16) (digit_char (value % 16) ∷ bs) in
      rw e (omega arith)
]

-- The digits that `append_chunk_prefix` writes.
abbrev pub size_digits : ℕ → Text
size_digits len = prefix_digits 16 len []

pub size_digits-IsDigit : (len : ℕ) → All IsDigit (size_digits len)
size_digits-IsDigit len = prefix_digits-IsDigit 16 len [] tt

size_of-size_digits :
    (bs : Text) (len : ℕ)
    → All IsDigit bs
    → 0 < length bs
    → digits_from 0 bs ≡ some len
    → size_of bs ≡ inr len
unfolding size_of
size_of-size_digits [] len h k e = absurd (omega arith)
size_of-size_digits (b ∷ bs) len h k e = rw (from_str_radix-digits (b ∷ bs) h k ∙ e, size_of) refl

pub digits_nonempty : (len : ℕ) → 0 < length (size_digits len)
unfolding prefix_digits
digits_nonempty len = elim (Bool-cases (len / 16 == 0)) [
  | inl e ↦ rw e (omega arith)
  | inr e ↦
      let longer = length-prefix_digits 15 (len / 16) (digit_char (len % 16) ∷ []) in
      rw e (omega arith)
]

-- For a length within a `usize`, the size that `pull_next` reads from the digits that
-- `append_chunk_prefix` wrote is the length.
pub chunk_size-size_digits : (len : ℕ) → len < usize_values → chunk_size (size_digits len) ≡ inr len
unfolding chunk_size digits_from
chunk_size-size_digits len h =
    let digits = size_digits-IsDigit len in
    rw
      (
        is_utf8-digits (size_digits len) digits,
        before_semicolon-digits (size_digits len) digits,
        trim-digits (size_digits len) digits,
      )
      (size_of-size_digits (size_digits len) len digits (digits_nonempty len)
        (digits_from-prefix_digits 15 len [] h (rw power_usize h)))

pub chunk_size_zero : chunk_size (48 ∷ []) ≡ inr 0
unfolding prefix_digits digit_char
chunk_size_zero = chunk_size-size_digits 0 (omega arith)
