-- ===== src/Transport/Tls/Host.antt =====
-- state.rs: `normalize_authority_host`, the host of an authority.
use pd_edge.Common.{Option, none, some, Bool, [], ◌∷◌, ◌&&◌, ◌||◌, ◌==◌, if◌then◌else◌, is_empty, ℕ}
use pd_edge.Common.Bytes.{Text}

-- `[` or `]`
unfoldable pub is_bracket : ℕ → Bool
is_bracket c = (c == 91) || (c == 93)

unfoldable pub trim_start : Text → Text
trim_start [] = []
trim_start (c ∷ cs) = if is_bracket c then trim_start cs else c ∷ cs

unfoldable pub trim_end : Text → Text
trim_end [] = []
trim_end (c ∷ cs) = let rest = trim_end cs in if is_bracket c && is_empty rest then [] else c ∷ rest

unfoldable pub trim_brackets : Text → Text
trim_brackets t = trim_end (trim_start t)

module _ (authority_host : Text → Option Text) where
  -- `authority_host` is the host of a text that parses as an authority.
  unfoldable pub normalize_authority_host : Text → Option Text
  normalize_authority_host value = normalized (authority_host value)
    where
      normalized : Option Text → Option Text
      normalized none = none
      normalized (some host) =
          if is_empty (trim_brackets host) then none else some (trim_brackets host)
