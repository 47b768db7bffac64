-- ===== src/Common/Bytes.antt =====
-- Bytes, texts as the lists of their UTF-8 bytes, and the masks of the code on one byte.
use mathlib.Core.Logic.{inr, inl, ◌↔◌}
use mathlib.Core.Path.{sym, ◌≡◌, refl}
use pd_edge.Common.Tests.{Bool-cases, ltb, leb, ◌==◌, if◌then◌else◌}
use Prim.Native.Nat.{◌≤◌, ℕ, zero, suc, ◌+◌, ◌*◌, ◌/◌, ◌%◌, ◌<◌, bit_and, bit_or}
use Prim.Native.Char.{code}
use Prim.Native.String.{String}
use mathlib.Core.List.{List, [], ◌∷◌}
use pd_edge.Common.Lists.{All}
use mathlib.Core.Option.{Option, none, some}
use mathlib.Core.Bool.{Bool, true, false, ◌&&◌}
use native.Mathlib.Omega.{arith}

abbrev pub IsByte : ℕ → Type 0
IsByte b = b < 256

abbrev pub Text : Type 0
Text = List ℕ

-- The bytes of an ASCII literal.
abbrev pub text : String → Text
text String.[] = []
text (String.◌∷◌ c s) = code c ∷ text s

unfoldable pub text_eq : Text → Text → Bool
text_eq [] [] = true
text_eq (a ∷ s) (b ∷ t) = a == b && text_eq s t
text_eq _ _ = false

pub text_eq_iff : (s t : Text) → (text_eq s t ≡ true) ↔ (s ≡ t)
unfolding text_eq
text_eq_iff [] [] = ground arith
text_eq_iff (a ∷ s) (b ∷ t) = ground (arith, text_eq_iff s t)
text_eq_iff [] (b ∷ t) = ground arith
text_eq_iff (a ∷ s) [] = ground arith

-- `u8::to_ascii_lowercase` and `eq_ignore_ascii_case`
unfoldable pub lowercase_byte : ℕ → ℕ
lowercase_byte b = if leb b'A' b && leb b b'Z' then b + 32 else b

unfoldable pub lowercase : Text → Text
lowercase [] = []
lowercase (b ∷ bs) = lowercase_byte b ∷ lowercase bs

-- What `str::from_utf8` asks of a lead byte: how many bytes follow, and the range of the first.
lead_byte : ℕ → Option (ℕ × ℕ × ℕ)
lead_byte b =
    if ltb b 0x80
    then some (0, 0x80, 0xbf)
    else if ltb b 0xc2
    then none
    else if ltb b 0xe0
    then some (1, 0x80, 0xbf)
    else if b == 0xe0
    then some (2, 0xa0, 0xbf)
    else if b == 0xed
    then some (2, 0x80, 0x9f)
    else if ltb b 0xf0
    then some (2, 0x80, 0xbf)
    else if b == 0xf0
    then some (3, 0x90, 0xbf)
    else if ltb b 0xf4
    then some (3, 0x80, 0xbf)
    else if b == 0xf4
    then some (3, 0x80, 0x8f)
    else none

-- `more` continuation bytes are due, the next one between `lo` and `hi`.
utf8_from : List ℕ → ℕ → ℕ → ℕ → Bool
utf8_from [] zero lo hi = true
utf8_from [] (suc more) lo hi = false
utf8_from (b ∷ bs) zero lo hi = elim (lead_byte b) [
  | none ↦ false
  | some (more, lo', hi') ↦ utf8_from bs more lo' hi'
]
utf8_from (b ∷ bs) (suc more) lo hi = leb lo b && leb b hi && utf8_from bs more 0x80 0xbf

-- `str::from_utf8(bytes).is_ok()`
unfoldable pub is_utf8 : List ℕ → Bool
unfolding utf8_from lead_byte
is_utf8 bytes = utf8_from bytes 0 0x80 0xbf

pub is_utf8-ascii : (bs : Text) → All (λ b. ltb b 0x80 ≡ true) bs → is_utf8 bs ≡ true
unfolding is_utf8 utf8_from lead_byte
is_utf8-ascii [] h = refl
is_utf8-ascii (b ∷ bs) h = rw (h.0, is_utf8, utf8_from, lead_byte) (is_utf8-ascii bs h.1)

==→eq : (a b : ℕ) → (a == b) ≡ true → a ≡ b
==→eq a b h = ground arith

-- `count` numbers, starting at `from`, pass the test.
holds_on : (test : ℕ → Bool) → (from count : ℕ) → Bool
holds_on test from zero = true
holds_on test from (suc count) = test from && holds_on test (suc from) count

holds_on-at :
    (test : ℕ → Bool) (from count byte : ℕ)
    → holds_on test from count ≡ true
    → from ≤ byte
    → byte < from + count
    → test byte ≡ true
unfolding holds_on
holds_on-at test from zero byte passed low high = absurd (omega arith)
holds_on-at test from (suc count) byte passed low high = elim (Bool-cases (from == byte)) [
  | inl e ↦ rw (sym (==→eq from byte e)) (ground (arith, passed))
  | inr e ↦
      holds_on-at test (suc from) count byte (ground (arith, passed)) (ground (arith, e))
        (omega arith)
]

-- The masks that the MQTT codec uses, as arithmetic. Each holds on all bytes, by evaluation.
pub low_seven : (b : ℕ) → b < 256 → bit_and b 0x7f ≡ b % 128
unfolding holds_on
low_seven b h =
    ==→eq _ _ (holds_on-at (λ x. bit_and x 0x7f == x % 128) 0 256 b refl (omega arith) h)

pub top_bit : (b : ℕ) → b < 256 → bit_and b 0x80 ≡ b / 128 * 128
unfolding holds_on
top_bit b h =
    ==→eq _ _ (holds_on-at (λ x. bit_and x 0x80 == x / 128 * 128) 0 256 b refl (omega arith) h)

pub set_top_bit : (b : ℕ) → b < 128 → bit_or b 0x80 ≡ b + 128
unfolding holds_on
set_top_bit b h =
    ==→eq _ _ (holds_on-at (λ x. bit_or x 0x80 == x + 128) 0 128 b refl (omega arith) h)

pub low_nibble : (b : ℕ) → b < 256 → bit_and b 0x0f ≡ b % 16
unfolding holds_on
low_nibble b h =
    ==→eq _ _ (holds_on-at (λ x. bit_and x 0x0f == x % 16) 0 256 b refl (omega arith) h)
