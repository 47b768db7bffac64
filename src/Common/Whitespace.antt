-- ===== src/Common/Whitespace.antt =====
-- White space of texts, as `str::trim` takes it off.
use pd_edge.Common.Tests.{leb, ◌==◌, if◌then◌else◌}
use Prim.Native.Nat.{ℕ, zero, suc}
use mathlib.Core.List.{[], ◌∷◌}
use mathlib.Core.Bool.{◌&&◌, ◌||◌}
use pd_edge.Common.Lists.{is_empty}
use pd_edge.Common.Bytes.{Text}

-- How many bytes the white space (`char::is_whitespace`) at the front of a text has, 0 for none.
unfoldable pub space_length : Text → ℕ
space_length (b ∷ []) = if b == 32 || leb 9 b && leb b 13 then 1 else 0
space_length (b ∷ c ∷ []) =
    if b == 32 || leb 9 b && leb b 13
    then 1
    else if b == 0xc2 && (c == 0x85 || c == 0xa0)
    then 2
    else 0
space_length (b ∷ c ∷ d ∷ bs) =
    if b == 32 || leb 9 b && leb b 13
    then 1
    else if b == 0xc2 && (c == 0x85 || c == 0xa0)
    then 2
    else if b == 0xe1 && c == 0x9a && d == 0x80
    then 3
    else if b == 0xe2
        && c == 0x80
        && (leb 0x80 d && leb d 0x8a || d == 0xa8 || d == 0xa9 || d == 0xaf)
    then 3
    else if b == 0xe2 && c == 0x81 && d == 0x9f
    then 3
    else if b == 0xe3 && c == 0x80 && d == 0x80
    then 3
    else 0
space_length [] = 0

-- `skipped` bytes of a white space are still to be taken off.
unfoldable pub trim_start_from : ℕ → Text → Text
trim_start_from skipped [] = []
trim_start_from (suc skipped) (b ∷ bs) = trim_start_from skipped bs
trim_start_from zero (b ∷ bs) = elim (space_length (b ∷ bs)) [
  | zero ↦ b ∷ bs
  | suc skipped ↦ trim_start_from skipped bs
]

unfoldable pub trim_end : Text → Text
trim_end [] = []
trim_end (b ∷ bs) = if is_empty (trim_start_from 0 (b ∷ bs)) then [] else b ∷ trim_end bs

-- `str::trim`
unfoldable pub trim : Text → Text
trim value = trim_end (trim_start_from 0 value)
